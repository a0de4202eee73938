-- ===== src/Requests/Access.antt =====
-- src/request.rs: what access through a handle depends on.
use leptos_ntex.Base.{
  ℕ, ◌≤◌, ◌<◌, ◌==◌, ==_iff, if◌then◌else◌, true, false, ◌&&◌, Bool-cases, Option, none, some,
  is_some, Option-cases, List, [], ◌∷◌, All, ◌≡◌, refl, sym, ◌∙◌, subst, arith, inl, inr,
}
use leptos_ntex.Requests.{
  Token, Registry, get, remove, update, same_token, is_live, take_out, live_entries, close,
}
use leptos_ntex.Requests.Scopes.{
  find_scope, map_scope, Below, Falling, Keeps, find_scope-update, find_scope-close,
}
use leptos_ntex.Requests.History.{Event, ended, is_open, native_of, History}

-- What the scopes hold for a handle.
abbrev pub Held : ℕ → List Registry → List Event → Token → Type 0
Held next_scope scopes es t =
    (t.scope < next_scope)
    × ((r : Registry)
        → find_scope t.scope scopes ≡ some r
        → (r.origin ≡ t.origin)
          × (t.id < r.next_id)
          × ((n : ℕ) × (get t.id r.entries ≡ some n) × (native_of t.scope t.id es ≡ some n)))

pub record IsTracked (h : History) : Type 0 where
  pub falling : Falling h.world.scopes
  pub below : Below h.world.next_scope h.world.scopes
  pub known : (s : ℕ) → is_open s h.events ≡ is_some (find_scope s h.world.scopes)
  pub held : All (Held h.world.next_scope h.world.scopes h.events) h.world.handles

is_some-map : (f : Registry → Registry) (o : Option Registry) → is_some (map_scope f o) ≡ is_some o
is_some-map f none = refl
is_some-map f (some r) = refl

pub is_some-update :
    (s id : ℕ) (f : Registry → Registry) (scopes : List Registry)
    → Keeps f
    → is_some (find_scope s (update id f scopes)) ≡ is_some (find_scope s scopes)
is_some-update s id f scopes k =
    ground
      (arith, find_scope-update s id f scopes k, is_some-map f (find_scope id scopes), ==_iff id s)

-- A change of a scope that keeps a handle's entry keeps what is held for it.
pub Held-update :
    (n id : ℕ) (f : Registry → Registry) (scopes : List Registry) (es : List Event) (t : Token)
    → Keeps f
    → ((r : Registry) → find_scope id scopes ≡ some r → r.next_id ≤ (f r).next_id)
    → ((r : Registry)
        → find_scope id scopes ≡ some r
        → t.scope ≡ id
        → get t.id (f r).entries ≡ get t.id r.entries)
    → Held n scopes es t
    → Held n (update id f scopes) es t
Held-update n id f scopes es t k grows same held = (
  held.0,
  λ r found. elim (Bool-cases (id == t.scope)) [
    | inr other ↦ held.1 r (ground (arith, other, found, find_scope-update t.scope id f scopes k))
    | inl same_id ↦ elim (Option-cases (find_scope t.scope scopes)) [
      | inl gone ↦
          absurd (ground (arith, same_id, gone, found, find_scope-update t.scope id f scopes k))
      | inr (q, e) ↦
          (let is : r ≡ f q =
              ground (arith, same_id, e, found, find_scope-update t.scope id f scopes k) in
            let (a, b, (m, c, d)) = held.1 q e in
            let kept : get t.id (f q).entries ≡ get t.id q.entries =
              same q (ground (arith, same_id, e)) (ground (arith, same_id)) in
            subst
              (λ (x : Registry).
                (x.origin ≡ t.origin)
                × (t.id < x.next_id)
                × ((n : ℕ) × (get t.id x.entries ≡ some n) × (native_of t.scope t.id es ≡ some n)))
              (sym is)
              (
                (k q).1 ∙ a,
                omega (arith, grows q (ground (arith, same_id, e)), b),
                (m, kept ∙ c, d),
              ))
    ]
  ],
)

pub Held-close :
    (n id : ℕ) (scopes : List Registry) (es : List Event) (t : Token)
    → Held n scopes es t
    → Held n (close id scopes) (ended id ∷ es) t
unfolding native_of
Held-close n id scopes es t held =
    (held.0, λ r found. held.1 r (ground (arith, found, find_scope-close t.scope id scopes)))

-- Tokens of the handles that stay, after one handle went.
pub All-take_out :
    (P : Token → Type 0) (t : Token) (handles : List Token)
    → All P handles
    → All P (take_out t handles)
unfolding take_out
All-take_out P t [] h = tt
All-take_out P t (u ∷ handles) h = elim (Bool-cases (same_token u t)) [
  | inl same ↦ rw same (h.1)
  | inr other ↦ rw other (h.0, All-take_out P t handles h.1)
]

pub All-live :
    (ts handles : List Token)
    → ((s i : ℕ) → is_live s i ts ≡ true → is_live s i handles ≡ true)
    → All (λ (t : Token). is_live t.scope t.id handles ≡ true) ts
unfolding is_live
All-live [] handles sub = tt
All-live (t ∷ ts) handles sub = (
  sub t.scope t.id (ground (arith, ==_iff t.scope t.scope, ==_iff t.id t.id)),
  All-live ts handles (λ s i l. sub s i (ground (arith, l))),
)

pub All-both :
    (P Q : Token → Type 0) (ts : List Token) → All P ts → All Q ts → All (λ t. P t × Q t) ts
All-both P Q [] p q = tt
All-both P Q (t ∷ ts) p q = ((p.0, q.0), All-both P Q ts p.1 q.1)

pub get-live_entries :
    (s i : ℕ) (handles : List Token) (entries : List (ℕ × ℕ))
    → is_live s i handles ≡ true
    → get i (live_entries s handles entries) ≡ get i entries
unfolding get live_entries
get-live_entries s i handles [] h = refl
get-live_entries s i handles ((j, n) ∷ entries) h = elim (Bool-cases (is_live s j handles)) [
  | inl stays ↦ rw stays (ground (arith, get-live_entries s i handles entries h))
  | inr goes ↦ rw goes (ground (arith, goes, h, get-live_entries s i handles entries h, ==_iff j i))
]

pub get-remove :
    (i j : ℕ) (entries : List (ℕ × ℕ))
    → get i (remove j entries) ≡ (if j == i then none else get i entries)
unfolding get remove
get-remove i j [] = ground arith
get-remove i j ((k, n) ∷ entries) =
    ground (arith, get-remove i j entries, ==_iff k j, ==_iff k i, ==_iff j i)

-- The last handle of a token is not among those that stay.
pub not_token :
    (s i : ℕ) (handles : List Token) (t : Token)
    → is_live s i handles ≡ false
    → is_live t.scope t.id handles ≡ true
    → (t.scope == s && t.id == i) ≡ false
not_token s i handles t dead live = elim (Bool-cases (t.scope == s && t.id == i)) [
  | inl same ↦ absurd (ground (arith, dead, live, same, ==_iff t.scope s, ==_iff t.id i))
  | inr other ↦ other
]

-- ===== src/Routes/Segments.antt =====
-- src/routes.rs: the parts of a path that is registered.
use leptos_ntex.Base.{
  sym, ◌==◌, ◌≡◌, ◌≢◌, ◌∙◌, refl, ap, arith, true, false, Bytes, codes, contains_byte,
  contains_byte-append, List, [], ◌∷◌, ◌++◌, append-nil, append_assoc, All,
}
use leptos_ntex.Paths.{split_slash, split_from}
use leptos_ntex.Routes.{
  PathSegment, unit, static, param, optional_param, splat, needs_slash, push_segment, push_segments,
  to_ntex_path,
}

-- No name has a slash, and no text is empty.
abbrev pub IsPlain : PathSegment → Type 0
IsPlain unit = Unit
IsPlain (static s) = (s ≢ []) × (contains_byte b'/' s ≡ false)
IsPlain (param s) = contains_byte b'/' s ≡ false
IsPlain (optional_param s) = contains_byte b'/' s ≡ false
IsPlain (splat s) = contains_byte b'/' s ≡ false

-- What each segment but a unit segment stands for in a pattern of ntex.
abbrev pub parts : List PathSegment → List Bytes
parts [] = []
parts (unit ∷ segments) = parts segments
parts (static s ∷ segments) = s ∷ parts segments
parts (param s ∷ segments) = (codes "{" ++ s ++ codes "}") ∷ parts segments
parts (optional_param s ∷ segments) = (codes "{" ++ s ++ codes "}") ∷ parts segments
parts (splat s ∷ segments) = (codes "{" ++ s ++ codes "}*") ∷ parts segments

abbrev joined : List Bytes → Bytes
joined [] = []
joined (p ∷ ps) = b'/' ∷ p ++ joined ps

plain-needs_slash : (s : Bytes) → s ≢ [] → contains_byte b'/' s ≡ false → needs_slash s ≡ true
unfolding needs_slash contains_byte
plain-needs_slash [] h k = absurd (h refl)
plain-needs_slash (b ∷ s) h k = ground (arith, k)

split_from-plain :
    (cur s t : Bytes)
    → contains_byte b'/' s ≡ false
    → split_from cur (s ++ t) ≡ split_from (cur ++ s) t
unfolding split_from contains_byte
split_from-plain cur [] t h = ap (λ c. split_from c t) (sym (append-nil cur))
split_from-plain cur (b ∷ s) t h =
    let other : (b == b'/') ≡ false = ground (arith, h) in
    rw (other) (
      split_from-plain (cur ++ b ∷ []) s t (ground (arith, h))
      ∙ ap (λ c. split_from c t) (append_assoc cur (b ∷ []) s))

split_from-joined :
    (cur : Bytes) (ps : List Bytes)
    → All (λ p. contains_byte b'/' p ≡ false) ps
    → split_from cur (joined ps) ≡ cur ∷ ps
unfolding split_from
split_from-joined cur [] h = refl
split_from-joined cur (p ∷ ps) (h, hs) =
    ap (◌∷◌ cur) (split_from-plain [] p (joined ps) h ∙ split_from-joined p ps hs)

-- A name in braces is one more part.
braced :
    (path s close : Bytes) (segments : List PathSegment)
    → push_segments (path ++ b'/' ∷ b'{' ∷ (s ++ close)) segments
      ≡ (path ++ b'/' ∷ b'{' ∷ (s ++ close)) ++ joined (parts segments)
    → push_segments (path ++ codes "/{" ++ s ++ close) segments
      ≡ path ++ joined ((codes "{" ++ s ++ close) ∷ parts segments)
braced path s close segments h =
    ap (λ q. push_segments q segments)
      (ap (λ q. q ++ close) (append_assoc path (codes "/{") s)
        ∙ append_assoc path (b'/' ∷ b'{' ∷ s) close)
    ∙ h
    ∙ append_assoc path (b'/' ∷ b'{' ∷ (s ++ close)) (joined (parts segments))

push_segments-joined :
    (path : Bytes) (segments : List PathSegment)
    → All IsPlain segments
    → push_segments path segments ≡ path ++ joined (parts segments)
unfolding push_segments push_segment
push_segments-joined path [] h = sym (append-nil path)
push_segments-joined path (unit ∷ segments) (h, hs) = push_segments-joined path segments hs
push_segments-joined path (static s ∷ segments) ((h, k), hs) = rw (plain-needs_slash s h k) (
    push_segments-joined (path ++ b'/' ∷ s) segments hs
    ∙ append_assoc path (b'/' ∷ s) (joined (parts segments)))
push_segments-joined path (param s ∷ segments) (h, hs) =
    braced path s (codes "}") segments (push_segments-joined _ segments hs)
push_segments-joined path (optional_param s ∷ segments) (h, hs) =
    braced path s (codes "}") segments (push_segments-joined _ segments hs)
push_segments-joined path (splat s ∷ segments) (h, hs) =
    braced path s (codes "}*") segments (push_segments-joined _ segments hs)

parts-plain :
    (segments : List PathSegment)
    → All IsPlain segments
    → All (λ p. contains_byte b'/' p ≡ false) (parts segments)
unfolding contains_byte
parts-plain [] h = tt
parts-plain (unit ∷ segments) (h, hs) = parts-plain segments hs
parts-plain (static s ∷ segments) ((h, k), hs) = (k, parts-plain segments hs)
parts-plain (param s ∷ segments) (h, hs) =
    (contains_byte-append b'/' s (codes "}") h refl, parts-plain segments hs)
parts-plain (optional_param s ∷ segments) (h, hs) =
    (contains_byte-append b'/' s (codes "}") h refl, parts-plain segments hs)
parts-plain (splat s ∷ segments) (h, hs) =
    (contains_byte-append b'/' s (codes "}*") h refl, parts-plain segments hs)

-- Where no name has a slash and no text is empty, the path of a route splits at its slashes into an
-- empty part and then one part for each segment that is not the unit segment, in order.
pub split_slash-to_ntex_path :
    (segments : List PathSegment)
    → All IsPlain segments
    → split_slash (to_ntex_path segments) ≡ [] ∷ parts segments
unfolding to_ntex_path split_slash
split_slash-to_ntex_path segments h =
    ap (split_from []) (push_segments-joined [] segments h)
    ∙ split_from-joined [] (parts segments) (parts-plain segments h)

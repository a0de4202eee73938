-- ===== src/Paths/Index.antt =====
-- A path with a final slash names the index below it.
use leptos_ntex.Base.{
  ℕ, ◌≡◌, refl, sym, ap, ◌∙◌, true, false, Bytes, codes, bytes_eq, Option, List, [], ◌∷◌, ◌++◌,
  arith,
}
use mathlib.Core.List.{append_assoc}
use leptos_ntex.Paths.{
  ends_with_slash, with_index, trim_start_slashes, logical, static_path, join_parts, and_html,
  parts_from, split_slash,
}

ends_with_slash-append :
    (p s : Bytes) (c : ℕ) → ends_with_slash (p ++ c ∷ s) ≡ ends_with_slash (c ∷ s)
unfolding ends_with_slash
ends_with_slash-append [] s c = refl
ends_with_slash-append (b ∷ []) s c = refl
ends_with_slash-append (b ∷ d ∷ p) s c = ends_with_slash-append (d ∷ p) s c

root_only : (p s : Bytes) (b c : ℕ) → bytes_eq (b ∷ p ++ c ∷ s) (codes "/") ≡ false
unfolding bytes_eq
root_only [] s b c = ground arith
root_only (d ∷ p) s b c = ground arith

one_slash : ends_with_slash (codes "/") ≡ true
unfolding ends_with_slash
one_slash = refl

-- A path that ends with a slash, and is more than that slash, gets `index` appended.
with_index-slash : (b : ℕ) (p : Bytes) → with_index (b ∷ p ++ codes "/") ≡ b ∷ p ++ codes "/index"
unfolding with_index
with_index-slash b p =
    rw (root_only p [] b b'/', ends_with_slash-append (b ∷ p) [] b'/', one_slash)
      (append_assoc (b ∷ p) (codes "/") (codes "index"))

with_index-index : (p : Bytes) → with_index (p ++ codes "/index") ≡ p ++ codes "/index"
unfolding with_index ends_with_slash
with_index-index p = ground (arith, ends_with_slash-append p (codes "index") b'/')

-- What is done with the path once the index is named.
artifact : (Bytes → Option Bytes) → List Bytes → Bytes → Option (List Bytes)
artifact decode site_root path =
    join_parts site_root
      (and_html (parts_from decode [] (split_slash (logical (trim_start_slashes path)))))

-- A static path with a final slash is published under the same artifact as the path of its index.
pub static_path-index :
    (decode : Bytes → Option Bytes) (site_root : List Bytes) (p : Bytes)
    → static_path decode site_root (p ++ codes "/")
      ≡ static_path decode site_root (p ++ codes "/index")
unfolding static_path artifact with_index ends_with_slash bytes_eq trim_start_slashes logical
static_path-index decode root [] = refl
static_path-index decode root (b ∷ p) =
    ap (artifact decode root) (with_index-slash b p ∙ sym (with_index-index (b ∷ p)))

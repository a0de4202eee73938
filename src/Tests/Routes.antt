-- ===== src/Tests/Routes.antt =====
-- The list of routes on concrete inputs.
use leptos_ntex.Base.{
  ◌≡◌, refl, Bool, true, false, Bytes, codes, bytes_eq, contains_byte, none, some, List, [], ◌∷◌,
  ◌++◌, map, All,
}
use leptos_ntex.Routes.{
  PathSegment, static, param, optional_param, splat, unit, to_ntex_path, push_segments,
  push_segment, needs_slash, or_root, Router, RouteListing, NtexRouteListing, into_route_listing,
  flat_map, or_fallback, is_excluded, retain_routes, generate_route_list,
}
use leptos_ntex.Routes.Segments.{split_slash-to_ntex_path}
use leptos_ntex.Paths.{split_slash}
use leptos_ntex.Routes.Rooted.{IsListed, generate_route_list-IsListed}
use leptos_ntex.Routes.Listings.{serves, serves-generate_route_list}

-- Each optional parameter is there or not.
abbrev with_segment : PathSegment → List (List PathSegment) → List (List PathSegment)
with_segment s [] = []
with_segment s (p ∷ paths) = (s ∷ p) ∷ with_segment s paths

abbrev expand : List PathSegment → List (List PathSegment)
expand [] = [] ∷ []
expand (unit ∷ segments) = with_segment unit (expand segments)
expand (static s ∷ segments) = with_segment (static s) (expand segments)
expand (param s ∷ segments) = with_segment (param s) (expand segments)
expand (splat s ∷ segments) = with_segment (splat s) (expand segments)
expand (optional_param s ∷ segments) =
    let rest = expand segments in with_segment (param s) rest ++ rest

abbrev router : Router
router = record {
  Mode = Bool;
  Method = Bool;
  RegenerationFn = Bool;
  default_mode = false;
  get = true;
  expand_optionals = expand;
}

abbrev users : RouteListing router
users = record {
  segments = static (codes "users") ∷ optional_param (codes "id") ∷ [];
  mode = false;
  methods = true ∷ [];
  regenerate = [];
}

abbrev files : RouteListing router
files = record {
  segments = static (codes "/files") ∷ unit ∷ splat [] ∷ [];
  mode = false;
  methods = true ∷ [];
  regenerate = [];
}

abbrev paths_of : List (NtexRouteListing router) → List (Bytes × Bool)
paths_of listings = map (λ l. (l.path, l.exclude)) listings

generate_route_list_test :
    (paths_of (generate_route_list router (some (users ∷ files ∷ [])) (some (codes "/users" ∷ [])))
      ≡ (codes "/users/{id}", false) ∷ (codes "/files/{}*", false) ∷ (codes "/users", true) ∷ [])
    × (paths_of (generate_route_list router none none) ≡ (codes "/", false) ∷ [])
    × (paths_of (generate_route_list router none (some (codes "/" ∷ []))) ≡ (codes "/", true) ∷ [])
unfolding generate_route_list flat_map or_fallback retain_routes is_excluded bytes_eq
    into_route_listing to_ntex_path push_segments push_segment needs_slash or_root
generate_route_list_test = (refl, refl, refl)

generate_route_list-IsListed_example :
    All
      (IsListed router (codes "/users" ∷ []))
      (generate_route_list router (some (users ∷ files ∷ [])) (some (codes "/users" ∷ [])))
generate_route_list-IsListed_example =
    generate_route_list-IsListed router (some (users ∷ files ∷ [])) (codes "/users" ∷ [])

serves-generate_route_list_example :
    serves router
      (codes "/users/{id}")
      (generate_route_list router (some (users ∷ files ∷ [])) (some (codes "/users" ∷ [])))
    ≡ true
unfolding is_excluded bytes_eq to_ntex_path push_segments push_segment needs_slash or_root
serves-generate_route_list_example =
    serves-generate_route_list router (codes "/users/{id}") (users ∷ files ∷ [])
      (some (codes "/users" ∷ []))

abbrev item : List PathSegment
item = static (codes "users") ∷ unit ∷ param (codes "id") ∷ splat (codes "rest") ∷ []

split_slash-to_ntex_path_example :
    split_slash (to_ntex_path item) ≡ [] ∷ codes "users" ∷ codes "{id}" ∷ codes "{rest}*" ∷ []
unfolding contains_byte
split_slash-to_ntex_path_example =
    split_slash-to_ntex_path item (((λ e. absurd (cc)), refl), (tt, (refl, (refl, tt))))

-- ===== src/Routes.antt =====
-- src/routes.rs: the paths of the routes and the list of what an application serves. What leptos_router
-- gives is an argument: a route's segments and modes, and `expand_optionals`.
pub mod Listings
pub mod Rooted
pub mod Segments
use leptos_ntex.Base.{
  ◌==◌, if◌then◌else◌, Bool, true, false, not, Bytes, codes, bytes_eq, any, Option, none, some,
  List, [], ◌∷◌, ◌++◌, map,
}

pub data PathSegment : Type 0 where
  unit : PathSegment
  static param optional_param splat : Bytes → PathSegment

-- Text that does not bring its separator.
unfoldable pub needs_slash : Bytes → Bool
needs_slash [] = false
needs_slash (b ∷ s) = not (b == b'/')

unfoldable pub push_segment : Bytes → PathSegment → Bytes
push_segment path unit = path
push_segment path (static s) = if needs_slash s then path ++ b'/' ∷ s else path ++ s
push_segment path (param s) = path ++ codes "/{" ++ s ++ codes "}"
push_segment path (optional_param s) = path ++ codes "/{" ++ s ++ codes "}"
push_segment path (splat s) = path ++ codes "/{" ++ s ++ codes "}*"

-- The loop over the segments.
unfoldable pub push_segments : Bytes → List PathSegment → Bytes
push_segments path [] = path
push_segments path (s ∷ segments) = push_segments (push_segment path s) segments

unfoldable pub to_ntex_path : List PathSegment → Bytes
to_ntex_path segments = push_segments [] segments

unfoldable pub or_root : Bytes → Bytes
or_root [] = codes "/"
or_root (b ∷ path) = b ∷ path

-- The runtime of a listing: the one of the process, the one of the generated list, or one of its own.
pub data Runtime : Type 0 where
  shared own separate : Runtime

pub record Router : Type 1 where
  pub Mode : Type 0
  pub Method : Type 0
  pub RegenerationFn : Type 0
  pub default_mode : Mode
  pub get : Method
  pub expand_optionals : List PathSegment → List (List PathSegment)

module _ (R : Router) where
  open R use {Mode, Method, RegenerationFn, default_mode, expand_optionals}

  pub record RouteListing : Type 0 where
    pub segments : List PathSegment
    pub mode : Mode
    pub methods : List Method
    pub regenerate : List RegenerationFn

  pub record NtexRouteListing : Type 0 where
    pub path : Bytes
    pub mode : Mode
    pub methods : List Method
    pub regenerate : List RegenerationFn
    pub exclude : Bool
    pub runtime : Runtime

  abbrev pub new : Bytes → Mode → List Method → List RegenerationFn → NtexRouteListing
  new path mode methods regenerate = record {
    path = path;
    mode = mode;
    methods = methods;
    regenerate = regenerate;
    exclude = false;
    runtime = Runtime.shared;
  }

  -- The listing of a route for one of its expanded paths.
  abbrev pub listing : RouteListing → List PathSegment → NtexRouteListing
  listing r segments = new (or_root (to_ntex_path segments)) r.mode r.methods r.regenerate

  unfoldable pub into_route_listing : RouteListing → List NtexRouteListing
  into_route_listing r = map (listing r) (expand_optionals r.segments)

  abbrev pub with_runtime : NtexRouteListing → NtexRouteListing
  with_runtime l = record l { runtime = Runtime.own }

  -- The `flat_map` over the routes and the `map` after it.
  unfoldable pub flat_map : List RouteListing → List NtexRouteListing
  unfolding into_route_listing
  flat_map [] = []
  flat_map (r ∷ routes) = map with_runtime (into_route_listing r) ++ flat_map routes

  unfoldable pub or_fallback : List NtexRouteListing → List NtexRouteListing
  or_fallback [] = new (codes "/") default_mode (R.get ∷ []) [] ∷ []
  or_fallback (l ∷ routes) = l ∷ routes

  unfoldable pub is_excluded : List Bytes → Bytes → Bool
  unfolding bytes_eq
  is_excluded excluded path = any (λ e. bytes_eq e path) excluded

  unfoldable pub retain_routes : List Bytes → List NtexRouteListing → List NtexRouteListing
  retain_routes excluded [] = []
  retain_routes excluded (l ∷ routes) =
      let rest = retain_routes excluded routes in
      if not (is_excluded excluded l.path) then l ∷ rest else rest

  abbrev pub placeholder : Bytes → NtexRouteListing
  placeholder path = record {
    path = path;
    mode = default_mode;
    methods = [];
    regenerate = [];
    exclude = true;
    runtime = Runtime.separate;
  }

  abbrev pub exclude_all : Option (List Bytes) → List NtexRouteListing → List NtexRouteListing
  exclude_all none routes = routes
  exclude_all (some excluded) routes = retain_routes excluded routes ++ map placeholder excluded

  abbrev unwrap_or_default : Option (List RouteListing) → List RouteListing
  unwrap_or_default none = []
  unwrap_or_default (some routes) = routes

  -- The listings of `generate_route_list_with_exclusions_and_ssg_and_context`, from the routes found.
  unfoldable pub generate_route_list :
      Option (List RouteListing) → (excluded_routes : Option (List Bytes)) → List NtexRouteListing
  unfolding flat_map or_fallback
  generate_route_list routes excluded_routes =
      exclude_all excluded_routes (or_fallback (flat_map (unwrap_or_default routes)))

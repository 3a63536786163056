-- ===== src/Boot/Remote/Settings.antt =====
-- boot/remote.go: the search of a layer for values that may only come from the environment.
pub mod Search
use dilu_go_kit.Base.{
  List, [], ◌∷◌, ◌++◌, map, Bool, true, false, ◌&&◌, ◌||◌, not, if◌then◌else◌, leb, length,
}
use dilu_go_kit.Base.Text.{Text, beq, codes, to_lower}

-- map[string]any as `range` visits it. A value that is not a map is what fmt.Sprint prints of it.
pub data Settings : Type 0 where
  end : Settings
  value : (key text : Text) → Settings → Settings
  section : (key : Text) → Settings → Settings → Settings

-- strings.ToLower, as far as ASCII letters and the two others that become ASCII are concerned: the keys
-- that are searched for are ASCII.
abbrev pub lower : Text → Text
lower = map to_lower

abbrev pub same_path : List Text → List Text → Bool
same_path [] [] = true
same_path [] (b ∷ others) = false
same_path (a ∷ more) [] = false
same_path (a ∷ more) (b ∷ others) = beq a b && same_path more others

-- path[0] and path[len(path)-1] of a path that is not empty
abbrev pub first_of : List Text → Text
first_of [] = []
first_of (a ∷ more) = a

abbrev pub last_of : List Text → Text
last_of [] = []
last_of (a ∷ []) = a
last_of (a ∷ b ∷ more) = last_of (b ∷ more)

-- isSensitiveConfigPath
unfoldable pub is_sensitive_config_path : List Text → Bool
is_sensitive_config_path path =
    (leb 3 (length path)
      && beq (first_of path) (codes "database")
      && beq (last_of path) (codes "dsn"))
    || same_path path (codes "diagnostics" ∷ codes "pprof" ∷ codes "authtoken" ∷ [])
    || same_path path (codes "redis" ∷ codes "password" ∷ [])
    || same_path path (codes "jwt" ∷ codes "secret" ∷ [])
    || same_path path (codes "registry" ∷ codes "token" ∷ [])
    || same_path path (codes "registry" ∷ codes "password" ∷ [])
    || same_path path (codes "notify" ∷ codes "token" ∷ [])

-- strings.Join(path, ".")
abbrev pub join_dots : List Text → Text
join_dots [] = []
join_dots (a ∷ []) = a
join_dots (a ∷ b ∷ more) = a ++ (b'.' ∷ join_dots (b ∷ more))

-- The closure `walk` of sensitiveRemotePath.
unfoldable pub walk : Settings → List Text → Text
unfolding is_sensitive_config_path
walk end prefix = []
walk (value k text rest) prefix =
    let path = prefix ++ (lower k ∷ []) in
    let later = walk rest prefix in
    if is_sensitive_config_path path && not (beq text []) then join_dots path else later
walk (section k nested rest) prefix =
    let found = walk nested (prefix ++ (lower k ∷ [])) in
    let later = walk rest prefix in if not (beq found []) then found else later

-- sensitiveRemotePath
abbrev pub sensitive_remote_path : Settings → Text
unfolding walk
sensitive_remote_path settings = walk settings []

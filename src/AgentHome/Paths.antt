-- ===== src/AgentHome/Paths.antt =====
-- The checks on paths and identities, and the keys that are made of them.
use auto_reign.Prelude.{
  ℕ, Bool, false, not, ◌&&◌, ◌||◌, Option, none, some, List, [], ◌∷◌, ◌++◌, Text, codes, Result, ok,
  ◌>>=◌, ◌>>◌, guard, leb, ltb, nat_beq, if◌then◌else◌, contains, nat_key, text_key, ◌==◌, any, all,
  length, ℤ, pos, negsuc,
}
use auto_reign.Json.{utf8_size, decimal}

pub data PathError : Type 0 where
  invalid_workspace_path invalid_workspace_identity : PathError

abbrev pub max_workspace_id_length : ℕ
max_workspace_id_length = 36

abbrev pub max_path_segment_bytes : ℕ
max_path_segment_bytes = 255

abbrev pub max_object_key_bytes : ℕ
max_object_key_bytes = 1024

-- `_utf8_size(value) > limit`, with the error that it raises for what cannot be encoded.
abbrev pub fits : Option ℕ → ℕ → Bool
fits none limit = false
fits (some size) limit = leb size limit

-- The characters of category Cc.
abbrev pub is_control : ℕ → Bool
is_control c = leb c 31 || (leb 127 c && leb c 159)

unfoldable pub contains_control_character : Text → Bool
contains_control_character value = any is_control value

abbrev pub slash : ℕ
slash = 47

abbrev pub backslash : ℕ
backslash = 92

abbrev pub before_first : ℕ → List Text → List Text
before_first c [] = (c ∷ []) ∷ []
before_first c (part ∷ parts) = (c ∷ part) ∷ parts

-- path.split("/")
unfoldable pub split_path : Text → List Text
split_path [] = [] ∷ []
split_path (c ∷ s) =
    let rest = split_path s in if nat_beq c slash then [] ∷ rest else before_first c rest

abbrev pub is_special : Text → Bool
is_special part = part == [] || (part == codes "." || part == codes "..")

abbrev starts_with_slash : Text → Bool
starts_with_slash [] = false
starts_with_slash (c ∷ s) = nat_beq c slash

-- "/".join(parts)
unfoldable pub join_path : List Text → Text
join_path [] = []
join_path (part ∷ []) = part
join_path (part ∷ next ∷ parts) = part ++ (slash ∷ join_path (next ∷ parts))

without_dots : List Text → List Text
without_dots [] = []
without_dots (part ∷ parts) =
    let rest = without_dots parts in if part == [] || part == codes "." then rest else part ∷ rest

or_dot : List Text → Text
or_dot [] = codes "."
or_dot (part ∷ parts) = join_path (part ∷ parts)

-- PurePosixPath(path).as_posix(), of a path that is relative.
unfoldable pub as_posix : Text → Text
unfolding without_dots or_dot
as_posix path = or_dot (without_dots (split_path path))

-- A `str` that passes all the tests. `is_absolute` is the first of them again.
unfoldable pub normalize_home_path : Text → Result PathError Text
normalize_home_path path = do
  guard (not (path == [])) invalid_workspace_path
  guard
      (not (starts_with_slash path || (contains path backslash || contains_control_character path)))
      invalid_workspace_path
  guard (not (any is_special (split_path path))) invalid_workspace_path
  guard (all (λ part. fits (utf8_size part) max_path_segment_bytes) (split_path path))
      invalid_workspace_path
  guard (fits (utf8_size path) max_object_key_bytes) invalid_workspace_path
  guard (not (starts_with_slash path) && as_posix path == path) invalid_workspace_path
  ok (as_posix path)

unfoldable pub normalize_home_directory : Text → Result PathError Text
normalize_home_directory directory =
    if directory == [] then ok [] else normalize_home_path directory

abbrev pub is_positive : ℤ → Bool
is_positive (pos n) = ltb 0 n
is_positive (negsuc n) = false

abbrev pub prefix_of : ℤ → Text → Text
prefix_of user_id workspace_id =
    codes "users/" ++ (decimal user_id ++ (codes "/workspaces/" ++ (workspace_id ++ codes "/")))

-- A number that Python refuses to write has too many digits for the last test.
unfoldable pub agent_home_prefix : ℤ → Text → Result PathError Text
agent_home_prefix user_id workspace_id = do
  guard
      (is_positive user_id
        && (not (workspace_id == [])
            && (leb (length workspace_id) max_workspace_id_length
                && (not (workspace_id == codes "." || workspace_id == codes "..")
                    && (not (contains workspace_id slash)
                        && (not (contains workspace_id backslash)
                            && (not (contains_control_character workspace_id)
                                && fits (utf8_size workspace_id) max_path_segment_bytes)))))))
      invalid_workspace_identity
  guard (fits (utf8_size (prefix_of user_id workspace_id)) max_object_key_bytes)
      invalid_workspace_identity
  ok (prefix_of user_id workspace_id)

unfoldable pub agent_home_key : ℤ → Text → Text → Result PathError Text
agent_home_key user_id workspace_id path = do
  normalized_path ← normalize_home_path path
  prefix ← agent_home_prefix user_id workspace_id
  guard (fits (utf8_size (prefix ++ normalized_path)) max_object_key_bytes) invalid_workspace_path
  ok (prefix ++ normalized_path)

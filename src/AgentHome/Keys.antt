-- ===== src/AgentHome/Keys.antt =====
-- What can be read from a key again (agent_home_paths.py).
use auto_reign.Prelude.{
  ◌≡◌, sym, ◌∙◌, ap, inl, inr, true, false, List, [], ◌∷◌, ◌++◌, append_assoc, Text, codes, ok,
  nat_key, text_key, text_beq_iff, contains, any, all, arith, Result-cases, ℤ, pos, negsuc,
}
use auto_reign.Json.{utf8_size, decimal}
use auto_reign.AgentHome.Paths.{
  fits, slash, backslash, split_path, join_path, is_special, as_posix, max_path_segment_bytes,
  max_object_key_bytes, contains_control_character, normalize_home_path, is_positive, prefix_of,
  agent_home_prefix, agent_home_key,
}
use auto_reign.AgentHome.Segments.{split-append, join-split, decimal-slash}

-- A path below a home: no segment of it is empty or goes anywhere else.
pub record IsHomePath (path : Text) : Type 0 where
  pub proper : any is_special (split_path path) ≡ false
  pub short : all (λ part. fits (utf8_size part) max_path_segment_bytes) (split_path path) ≡ true
  pub bounded : fits (utf8_size path) max_object_key_bytes ≡ true
  pub no_backslash : contains path backslash ≡ false
  pub no_control : contains_control_character path ≡ false

pub normalize_home_path-IsHomePath :
    (path normalized : Text)
    → normalize_home_path path ≡ ok normalized
    → (normalized ≡ path) × IsHomePath path
unfolding normalize_home_path
normalize_home_path-IsHomePath path normalized h = (
  ground (arith, text_beq_iff (as_posix path) path),
  record {
    proper = ground arith;
    short = ground arith;
    bounded = ground arith;
    no_backslash = ground arith;
    no_control = ground arith;
  },
)

-- The number of a user is positive, and the name of a workspace is one segment.
pub agent_home_prefix-ok :
    (user_id : ℤ) (workspace_id prefix : Text)
    → agent_home_prefix user_id workspace_id ≡ ok prefix
    → (prefix ≡ prefix_of user_id workspace_id)
      × (is_positive user_id ≡ true)
      × (contains workspace_id slash ≡ false)
unfolding agent_home_prefix
agent_home_prefix-ok user_id workspace_id prefix h = (ground arith, ground arith, ground arith)

decimal-one_segment :
    (user_id : ℤ) → is_positive user_id ≡ true → contains (decimal user_id) slash ≡ false
decimal-one_segment (pos n) h = decimal-slash n
decimal-one_segment (negsuc n) h = cc

-- The segments of a key, without the two words that all keys have.
prefix_of-split :
    (user_id : ℤ) (workspace_id path : Text)
    → is_positive user_id ≡ true
    → contains workspace_id slash ≡ false
    → split_path (prefix_of user_id workspace_id ++ path)
      ≡ codes "users" ∷ decimal user_id ∷ codes "workspaces" ∷ workspace_id ∷ split_path path
unfolding split_path
prefix_of-split user_id workspace_id path positive one_segment =
    let behind_number : Text = codes "workspaces/" ++ (workspace_id ++ (slash ∷ path)) in
    let written : prefix_of user_id workspace_id ++ path
        ≡ codes "users/" ++ (decimal user_id ++ (slash ∷ behind_number)) =
      ap (λ t. codes "users/" ++ t)
        (append_assoc (decimal user_id) (codes "/workspaces/" ++ (workspace_id ++ codes "/")) path
          ∙ ap (λ t. decimal user_id ++ (codes "/workspaces/" ++ t))
              (append_assoc workspace_id (codes "/") path)) in
    let number =
      split-append (decimal user_id) behind_number (decimal-one_segment user_id positive) in
    let workspace = split-append workspace_id path one_segment in
    ap split_path written
    ∙ (ap (λ parts. codes "users" ∷ parts) number
        ∙ ap (λ parts. codes "users" ∷ decimal user_id ∷ codes "workspaces" ∷ parts) workspace)

-- What a key that was made has.
pub record IsKey (user_id : ℤ) (workspace_id path key : Text) : Type 0 where
  pub segments :
      split_path key
      ≡ codes "users" ∷ decimal user_id ∷ codes "workspaces" ∷ workspace_id ∷ split_path path
  pub home_path : IsHomePath path
  pub bounded : fits (utf8_size key) max_object_key_bytes ≡ true

-- Whatever key is made, it stays below the prefix of its user and workspace: its segments are the
-- word `users`, the number of the user, the word `workspaces`, the workspace and then those of the
-- path, none of which is empty, `.` or `..`; it has at most 1024 bytes and each segment of the path at
-- most 255, and the path has no backslash and no control character.
pub agent_home_key-IsKey :
    (user_id : ℤ) (workspace_id path key : Text)
    → agent_home_key user_id workspace_id path ≡ ok key
    → IsKey user_id workspace_id path key
unfolding agent_home_key
agent_home_key-IsKey user_id workspace_id path key h =
    elim (Result-cases (normalize_home_path path)) [
      | inr (e, raised) ↦ ground arith
      | inl (normalized, returned) ↦ elim (Result-cases (agent_home_prefix user_id workspace_id)) [
        | inr (e, raised) ↦ ground arith
        | inl (prefix, made) ↦
            let (same, home) = normalize_home_path-IsHomePath path normalized returned in
            let (is_prefix, positive, one_segment) =
              agent_home_prefix-ok user_id workspace_id prefix made in
            let whole : key ≡ prefix ++ normalized = ground arith in
            let written : key ≡ prefix_of user_id workspace_id ++ path =
              whole
              ∙ (ap (λ p. p ++ normalized) is_prefix
                  ∙ ap (λ n. prefix_of user_id workspace_id ++ n) same) in
            record {
              segments =
                  ap split_path written
                  ∙ prefix_of-split user_id workspace_id path positive one_segment;
              home_path = home;
              bounded = ground arith;
            }
      ]
    ]

-- The segments of a key at their places.
segment_2 : List Text → Text
segment_2 (a ∷ b ∷ parts) = b
segment_2 _ = []

segment_4 : List Text → Text
segment_4 (a ∷ b ∷ c ∷ d ∷ parts) = d
segment_4 _ = []

after_4 : List Text → List Text
after_4 (a ∷ b ∷ c ∷ d ∷ parts) = parts
after_4 _ = []

-- Two users, workspaces or paths never share a key: from equal keys the number of the user as it is
-- written, the workspace and the path are equal.
pub agent_home_key-injective :
    (user_id other_user : ℤ) (workspace_id other_workspace path other_path key : Text)
    → agent_home_key user_id workspace_id path ≡ ok key
    → agent_home_key other_user other_workspace other_path ≡ ok key
    → (decimal user_id ≡ decimal other_user)
      × (workspace_id ≡ other_workspace)
      × (path ≡ other_path)
unfolding segment_2 segment_4 after_4
agent_home_key-injective user_id other_user workspace_id other_workspace path other_path key one
      other =
    let first = agent_home_key-IsKey user_id workspace_id path key one in
    let second = agent_home_key-IsKey other_user other_workspace other_path key other in
    let same = sym first.segments ∙ second.segments in
    (
      ap segment_2 same,
      ap segment_4 same,
      sym (join-split path)
          ∙ (ap (λ parts. join_path (after_4 parts)) same ∙ join-split other_path),
    )

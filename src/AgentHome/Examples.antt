-- ===== src/AgentHome/Examples.antt =====
-- The key of one file.
use auto_reign.Prelude.{◌≡◌, refl, codes, ok, pos, is_surrogate}
use auto_reign.Json.{decimal, digits_before, utf8_size}
use auto_reign.AgentHome.Paths.{
  contains_control_character, split_path, join_path, as_posix, normalize_home_path,
  agent_home_prefix, agent_home_key,
}
use auto_reign.AgentHome.Keys.{IsKey, agent_home_key-IsKey, agent_home_key-injective}

key_ok :
    agent_home_key (pos 3) (codes "w") (codes "a/b.txt") ≡ ok (codes "users/3/workspaces/w/a/b.txt")
unfolding agent_home_key normalize_home_path agent_home_prefix contains_control_character split_path
    join_path as_posix utf8_size is_surrogate decimal digits_before
key_ok = refl

agent_home_key-IsKey_example :
    IsKey (pos 3) (codes "w") (codes "a/b.txt") (codes "users/3/workspaces/w/a/b.txt")
agent_home_key-IsKey_example =
    agent_home_key-IsKey (pos 3) (codes "w") (codes "a/b.txt")
      (codes "users/3/workspaces/w/a/b.txt") key_ok

agent_home_key-injective_example :
    (decimal (pos 3) ≡ decimal (pos 3))
    × (codes "w" ≡ codes "w")
    × (codes "a/b.txt" ≡ codes "a/b.txt")
agent_home_key-injective_example =
    agent_home_key-injective (pos 3) (pos 3) (codes "w") (codes "w") (codes "a/b.txt")
      (codes "a/b.txt") (codes "users/3/workspaces/w/a/b.txt") key_ok key_ok

-- ===== src/Mapping/Tests.antt =====
-- The hash of "abc", and the locators of two nodes.
use melodi.Base.{
  err, eexist, length, take, replicate, ok, ℕ, ◌*◌, ◌≤◌, ◌≡◌, refl, some, List, [], ◌∷◌, map, arith,
}
use melodi.Wire.Octets.{get32}
use melodi.Mapping.Blake2s
use melodi.Mapping.Blake2s.Rounds.{update-enough}
use melodi.Mapping.Locator.{
  map_native_locator_available, IsFirst, candidate, different, node_valid, search,
  map_native_locator, member, search_free,
}
use melodi.Mapping.Collision.{
  free, Entry, Resolved, after, insert, insert_all, assign, resolve_collision_set,
  map_native_locator_available-IsFirst,
}
use melodi.Mapping.Sorted.{Ascending, resolve_collision_set-Resolved}
use mathlib.Core.List.{Perm}

init-room : length (Blake2s.init).buffer ≤ 64
unfolding Blake2s.init
init-room = omega arith

abbrev abc : List ℕ
abc = 0x61 ∷ 0x62 ∷ 0x63 ∷ []

-- The digest that RFC 7693 gives.
digest_abc :
    take 8 (Blake2s.final (Blake2s.update Blake2s.init abc))
    ≡ 0x50 ∷ 0x8c ∷ 0x5e ∷ 0x8c ∷ 0x32 ∷ 0x7c ∷ 0x14 ∷ 0xe2 ∷ []
unfolding Blake2s.final Blake2s.update Blake2s.update_loop Blake2s.flush Blake2s.init Blake2s.count
    Blake2s.compress Blake2s.fold_state Blake2s.load_words Blake2s.rounds Blake2s.mix
    Blake2s.mix_half Blake2s.rotate_right Blake2s.store32 Blake2s.load32 Blake2s.store_words
digest_abc = refl

update-enough_example :
    (Blake2s.update_loop (2 * length abc) Blake2s.init abc ≡ some (Blake2s.update Blake2s.init abc))
    × (length (Blake2s.update Blake2s.init abc).buffer ≤ 64)
update-enough_example = update-enough Blake2s.init abc init-room

abbrev domain : List ℕ
domain = replicate 32 8

abbrev node : ℕ → List ℕ
node x = 1 ∷ replicate 32 x

abbrev entry : ℕ → ℕ → Entry
entry x locator = record { node_id = node x; native_locator = locator; collision_round = 0 }

abbrev two_entries : List Entry
two_entries = entry 7 (candidate domain (node 7) 0) ∷ entry 9 (candidate domain (node 9) 0) ∷ []

mapped : map_native_locator domain (node 7) 0 ≡ ok (candidate domain (node 7) 0, 0)
unfolding map_native_locator search node_valid different candidate get32 Blake2s.final
    Blake2s.update Blake2s.update_loop Blake2s.flush Blake2s.init Blake2s.count Blake2s.compress
    Blake2s.fold_state Blake2s.load_words Blake2s.rounds Blake2s.mix Blake2s.mix_half
    Blake2s.rotate_right Blake2s.store32 Blake2s.load32 Blake2s.store_words
mapped = refl

available :
    map_native_locator_available domain (node 7) 0 (1 ∷ 2 ∷ [])
    ≡ ok (candidate domain (node 7) 0, 0)
unfolding map_native_locator_available search_free member map_native_locator search node_valid
    different candidate get32 Blake2s.final Blake2s.update Blake2s.update_loop Blake2s.flush
    Blake2s.init Blake2s.count Blake2s.compress Blake2s.fold_state Blake2s.load_words Blake2s.rounds
    Blake2s.mix Blake2s.mix_half Blake2s.rotate_right Blake2s.store32 Blake2s.load32
    Blake2s.store_words
available = refl

map_native_locator_available-IsFirst_example :
    IsFirst (candidate domain (node 7)) (free (1 ∷ 2 ∷ [])) 0 (candidate domain (node 7) 0) 0
map_native_locator_available-IsFirst_example =
    map_native_locator_available-IsFirst domain (node 7) 0 (1 ∷ 2 ∷ []) available

resolved : resolve_collision_set domain (node 9 ∷ node 7 ∷ []) ≡ ok two_entries
unfolding resolve_collision_set insert_all insert after assign map_native_locator_available
    search_free member map_native_locator search node_valid different candidate get32 Blake2s.final
    Blake2s.update Blake2s.update_loop Blake2s.flush Blake2s.init Blake2s.count Blake2s.compress
    Blake2s.fold_state Blake2s.load_words Blake2s.rounds Blake2s.mix Blake2s.mix_half
    Blake2s.rotate_right Blake2s.store32 Blake2s.load32 Blake2s.store_words
resolved = refl

resolve_collision_set-Resolved_example :
    Perm (map Entry.node_id two_entries) (node 9 ∷ node 7 ∷ [])
    × Ascending (map Entry.node_id two_entries)
    × Resolved domain [] two_entries
resolve_collision_set-Resolved_example =
    resolve_collision_set-Resolved domain (node 9 ∷ node 7 ∷ []) resolved

-- A NodeId that is there twice is refused.
repeated : resolve_collision_set domain (node 9 ∷ node 7 ∷ node 9 ∷ []) ≡ err eexist
unfolding resolve_collision_set insert_all insert after
repeated = refl

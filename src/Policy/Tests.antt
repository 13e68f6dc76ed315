-- ===== src/Policy/Tests.antt =====
-- Runs of the policy, and its theorems at concrete inputs.
use melodi.NodeId.{node_id_valid, different, below_prime}
use melodi.Slots.{scan, first}
use melodi.Policy.{
  Policy, allow_authenticated, reset, set_peer, check_message, check_service, check, entry_state,
  trusted, blocked, peer_hit, peer_locked, no_peer, no_service, is_blocked, is_trusted, end_session,
  entry_is, requires_trust, service_hit, set_mode,
}
use melodi.Policy.Lookup.{view}
use melodi.Policy.Rules.{to_peer, to_service, to_mode, to_reverify, step, IsPolicy, Correct}
use melodi.Policy.Refinement.{step-Correct, reset-IsPolicy}
use melodi.Policy.Results.{step-expected, expected}
use melodi.Policy.Blocked.{
  leaves, check_message-permitted, blocked-refused, run, permitted, decided,
}
use melodi.Base.{
  replicate, same_bytes, ok, err, eacces, ℕ, ◌≡◌, refl, Bool, true, false, List, [], ◌∷◌,
}

-- The stand-in for the check of the cipher library: it takes any point.
abbrev any_key : List ℕ → Bool
any_key key = true

abbrev alice : List ℕ
alice = 1 ∷ 7 ∷ replicate 31 2

abbrev bob : List ℕ
bob = 1 ∷ 9 ∷ replicate 31 2

abbrev boot : Policy
boot = record {
  mode = allow_authenticated;
  broadcast_allowed = true;
  policy_peers = replicate 64 no_peer;
  policy_services = replicate 64 no_service;
  peers = [];
}

boot-IsPolicy : IsPolicy boot
unfolding reset
boot-IsPolicy = reset-IsPolicy boot

boot_blocks_alice : (set_peer any_key boot alice blocked).2 ≡ ok tt
unfolding set_peer node_id_valid different below_prime is_trusted is_blocked peer_locked scan
    peer_hit
boot_blocks_alice = refl

step-Correct_example :
    Correct boot (to_peer alice blocked) (step any_key (ok tt) boot (to_peer alice blocked))
step-Correct_example = step-Correct any_key (ok tt) boot (to_peer alice blocked) boot-IsPolicy

-- The control service has no rule of its own.
step-expected_example :
    (step any_key (ok tt) boot (to_service 0 1)).2 ≡ expected any_key (ok tt) boot (to_service 0 1)
step-expected_example = step-expected any_key (ok tt) boot (to_service 0 1) boot-IsPolicy

check_message-permitted_example :
    check_message boot alice 5 false ≡ decided (permitted (view boot) alice 5 false)
check_message-permitted_example = check_message-permitted boot alice 5 false

-- Trust is required later, bob is trusted and his session is asked for again: alice stays blocked.
blocked-refused_example :
    check_message
      (run any_key
        (ok tt)
        (set_peer any_key boot alice blocked).0
        (to_mode 1 ∷ to_peer bob trusted ∷ to_reverify bob ∷ []))
      alice
      5
      false
    ≡ err eacces
unfolding leaves same_bytes
blocked-refused_example =
    blocked-refused any_key (ok tt) boot alice
      (to_mode 1 ∷ to_peer bob trusted ∷ to_reverify bob ∷ []) 5 boot-IsPolicy boot_blocks_alice
      (refl, (refl, (refl, tt)))

-- Alice is refused when trust is required, and bob passes.
trusted_passes :
    check_message (run any_key (ok tt) boot (to_mode 1 ∷ to_peer bob trusted ∷ [])) bob 5 false
    ≡ ok tt
unfolding run step set_mode set_peer node_id_valid different below_prime is_trusted is_blocked
    peer_locked scan peer_hit check_message check check_service entry_state entry_is requires_trust
    end_session first service_hit same_bytes
trusted_passes = refl

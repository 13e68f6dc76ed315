-- ===== src/Policy/Refinement.antt =====
-- The operations of kernel/core/policy.c against the rules that the tables stand for.
use mathlib.Core.Path.{fun_ext}
use melodi.Slots.{index}
use melodi.Slots.Index.{scan-index, index-lt}
use melodi.Slots.Keyed.{
  rule-put, rule-clear, Unique-put, Unique-clear, Unique-replicate, rule-replicate,
}
use melodi.Slots.Update.{Place}
use melodi.NodeId.{node_id_valid}
use melodi.Peers.{Peer}
use melodi.Policy.{
  Policy, PolicyMode, PolicyPeer, PeerState, PolicyService, peer_hit, service_hit, peer_locked,
  no_peer, no_service, is_blocked, is_trusted, require_trust, allow_authenticated, set_peer,
  clear_peer, set_service, put_service, set_broadcast, set_mode, reset, reverify_peer, action_allow,
  action_clear, allow, deny, service_control, reset_peer, state_changed,
}
use melodi.Policy.Lookup.{view, peers_table, services_table, peer_locked-lookup, peer_locked-Place}
use melodi.Base.{
  ltb, ◌==◌, if◌then◌else◌, ==_refl, Bool-cases, Option-cases, Result, set, length-set,
  same_bytes_refl, ok, err, ℕ, ◌≡◌, refl, sym, ◌∙◌, inl, inr, Bool, true, false, not, ◌||◌, some,
  List, [],
}
use melodi.Policy.Rules.{
  Command, to_peer, to_clear, to_service, to_broadcast, to_mode, to_reset, to_reverify, step,
  effect, succeeded, IsPolicy, Correct,
}

module _ (d : Policy) (v : IsPolicy d) where
  set_peer-Correct :
      (key_check : List ℕ → Bool) (node : List ℕ) (state : PeerState)
      → Correct d (to_peer node state) (set_peer key_check d node state)
  unfolding set_peer effect view peer_hit
  set_peer-Correct key_check node state =
      elim (Bool-cases
        (not (node_id_valid key_check node) || not (is_trusted state || is_blocked state))) [
          | inl bad ↦ rw bad (refl, v)
          | inr good ↦ elim (Option-cases (peer_locked d node true)) [
            | inl full ↦ rw (good, full) (refl, v)
            | inr (i, at) ↦
                let e : PolicyPeer = record { node_id = node; state = state; active = true } in
                let place = peer_locked-Place d node i at in
                let there : peer_hit node e ≡ true = same_bytes_refl node in
                rw (good, at)
                  (
                    λ j. record {
                      mode = d.mode;
                      broadcast_allowed = d.broadcast_allowed;
                      peer = fun_ext (rule-put peers_table d.policy_peers node i e place there) j;
                      service = (view d).service;
                    },
                    record {
                      peer_slots = length-set d.policy_peers i e ∙ v.peer_slots;
                      service_slots = v.service_slots;
                      unique_peers =
                          Unique-put peers_table d.policy_peers node i e place there v.unique_peers;
                      unique_services = v.unique_services;
                    },
                  )
          ]
        ]

  clear_peer-Correct :
      (key_check : List ℕ → Bool) (node : List ℕ)
      → Correct d (to_clear node) (clear_peer key_check d node)
  unfolding clear_peer effect view
  clear_peer-Correct key_check node = elim (Bool-cases (not (node_id_valid key_check node))) [
    | inl bad ↦ rw bad (refl, v)
    | inr good ↦ elim (Option-cases (peer_locked d node false)) [
      | inl full ↦ rw (good, full) (refl, v)
      | inr (i, at) ↦
          let here = sym (peer_locked-lookup d node) ∙ at in
          rw (good, at)
            (
              λ j. record {
                mode = d.mode;
                broadcast_allowed = d.broadcast_allowed;
                peer =
                    fun_ext
                      (rule-clear peers_table d.policy_peers node i no_peer here refl
                        v.unique_peers)
                      j;
                service = (view d).service;
              },
              record {
                peer_slots = length-set d.policy_peers i no_peer ∙ v.peer_slots;
                service_slots = v.service_slots;
                unique_peers =
                    Unique-clear peers_table d.policy_peers node i no_peer
                      (index-lt (peer_hit node) d.policy_peers i here) refl v.unique_peers;
                unique_services = v.unique_services;
              },
            )
    ]
  ]

  -- Writing an action under a service, at the match or at an inactive entry.
  put_service-Correct :
      (service action i : ℕ)
      → (action == action_clear) ≡ false
      → Place (λ e. e.active) (service_hit service) d.policy_services i
      → Correct d (to_service service action) (put_service d service action i)
  unfolding put_service effect view service_hit
  put_service-Correct service action i keep place =
      let e : PolicyService = record {
        service = service;
        action = if action == action_allow then allow else deny;
        active = true;
      } in
      rw keep (
        λ j. record {
          mode = d.mode;
          broadcast_allowed = d.broadcast_allowed;
          peer = (view d).peer;
          service =
              fun_ext
                (rule-put services_table d.policy_services service i e place (==_refl service)) j;
        },
        record {
          peer_slots = v.peer_slots;
          service_slots = length-set d.policy_services i e ∙ v.service_slots;
          unique_peers = v.unique_peers;
          unique_services =
              Unique-put services_table d.policy_services service i e place (==_refl service)
                v.unique_services;
        },
      )

  clear_service-Correct :
      (service action i : ℕ)
      → (action == action_clear) ≡ true
      → index (service_hit service) d.policy_services ≡ some i
      → Correct d
          (to_service service action)
          (record d { policy_services = set d.policy_services i no_service }, state_changed, ok tt)
  unfolding effect view
  clear_service-Correct service action i clearing here = rw clearing (
    λ j. record {
      mode = d.mode;
      broadcast_allowed = d.broadcast_allowed;
      peer = (view d).peer;
      service =
          fun_ext
            (rule-clear services_table d.policy_services service i no_service here refl
              v.unique_services)
            j;
    },
    record {
      peer_slots = v.peer_slots;
      service_slots = length-set d.policy_services i no_service ∙ v.service_slots;
      unique_peers = v.unique_peers;
      unique_services =
          Unique-clear services_table d.policy_services service i no_service
            (index-lt (service_hit service) d.policy_services i here) refl v.unique_services;
    },
  )

  set_service-Correct :
      (service action : ℕ) → Correct d (to_service service action) (set_service d service action)
  unfolding set_service
  set_service-Correct service action =
      let looked = scan-index (λ e. e.active) (service_hit service) d.policy_services in
      elim (Bool-cases
        (service == service_control || ltb action action_allow || ltb action_clear action)) [
          | inl bad ↦ rw bad (refl, v)
          | inr good ↦ elim (Option-cases (index (service_hit service) d.policy_services)) [
            | inr (i, at) ↦ elim (Bool-cases (action == action_clear)) [
              | inl clearing ↦
                  rw (good, looked, at, clearing)
                    (clear_service-Correct service action i clearing at)
              | inr keep ↦
                  rw (good, looked, at, keep) (put_service-Correct service action i keep (inl at))
            ]
            | inl gone ↦ elim (Bool-cases (action == action_clear)) [
              | inl clearing ↦ rw (good, looked, gone, clearing) (refl, v)
              | inr keep ↦ elim (Option-cases (index (λ e. not e.active) d.policy_services)) [
                | inl full ↦ rw (good, looked, gone, keep, full) (refl, v)
                | inr (i, empty) ↦
                    rw (good, looked, gone, keep, empty)
                      (put_service-Correct service action i keep (inr (gone, empty)))
              ]
            ]
          ]
        ]

  -- The tables do not see the rest of the device.
  rest-IsPolicy :
      (mode : PolicyMode) (allowed : Bool) (peers : List Peer)
      → IsPolicy (record d { mode = mode; broadcast_allowed = allowed; peers = peers })
  rest-IsPolicy mode allowed peers = record {
    peer_slots = v.peer_slots;
    service_slots = v.service_slots;
    unique_peers = v.unique_peers;
    unique_services = v.unique_services;
  }

  set_mode-Correct : (mode : ℕ) → Correct d (to_mode mode) (set_mode d mode)
  unfolding set_mode effect view
  set_mode-Correct mode = elim (Bool-cases (ltb 1 mode)) [
    | inl bad ↦ rw bad (refl, v)
    | inr good ↦ rw good (
      refl,
      rest-IsPolicy (if mode == 0 then allow_authenticated else require_trust) d.broadcast_allowed
          d.peers,
    )
  ]

  reverify_peer-Correct :
      (key_check : List ℕ → Bool) (announced : Result (Unit {0})) (node : List ℕ)
      → Correct d (to_reverify node) (reverify_peer key_check announced d node)
  unfolding reverify_peer effect view
  reverify_peer-Correct key_check announced node =
      elim (Bool-cases (not (node_id_valid key_check node))) [
        | inl bad ↦ rw bad (refl, v)
        | inr good ↦ elim (Option-cases (reset_peer node d.peers)) [
          | inl unknown ↦ rw (good, unknown) (refl, v)
          | inr (peers', known) ↦
              rw (good, known)
                (
                  elim announced as (λ a. view d ≡ (if succeeded a then view d else view d)) [
                    | ok _ ↦ refl
                    | err _ ↦ refl
                  ],
                  rest-IsPolicy d.mode d.broadcast_allowed peers',
                )
        ]
      ]

pub reset-IsPolicy : (d : Policy) → IsPolicy (reset d)
unfolding reset
reset-IsPolicy d = record {
  peer_slots = refl;
  service_slots = refl;
  unique_peers = Unique-replicate peers_table 64 no_peer refl;
  unique_services = Unique-replicate services_table 64 no_service refl;
}

reset-Correct : (d : Policy) → Correct d to_reset (reset d, [], ok tt)
unfolding reset effect view
reset-Correct d = (
  λ j. record {
    mode = allow_authenticated;
    broadcast_allowed = true;
    peer = fun_ext (λ node. rule-replicate peers_table node 64 no_peer refl) j;
    service = fun_ext (λ service. rule-replicate services_table service 64 no_service refl) j;
  },
  reset-IsPolicy d,
)

-- On well-formed tables, an operation that succeeds changes the rules by the effect of its request,
-- one that fails changes no rule, and the tables are well formed after either.
pub step-Correct :
    (key_check : List ℕ → Bool) (announced : Result (Unit {0})) (d : Policy) (c : Command)
    → IsPolicy d
    → Correct d c (step key_check announced d c)
unfolding step set_broadcast effect view
step-Correct key_check announced d (to_peer node state) v =
    set_peer-Correct d v key_check node state
step-Correct key_check announced d (to_clear node) v = clear_peer-Correct d v key_check node
step-Correct key_check announced d (to_service service action) v =
    set_service-Correct d v service action
step-Correct key_check announced d (to_broadcast allowed) v =
    (refl, rest-IsPolicy d v d.mode allowed d.peers)
step-Correct key_check announced d (to_mode mode) v = set_mode-Correct d v mode
step-Correct key_check announced d to_reset v = reset-Correct d
step-Correct key_check announced d (to_reverify node) v =
    reverify_peer-Correct d v key_check announced node

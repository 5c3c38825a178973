-- ===== src/Cmd/Outcomes.antt =====
-- The commands of daemon/cmd.c keep our master rank at or below that of the anchor master, and what
-- removing an entry keeps of the peers.
use opennan.Prelude.{ℕ, ◌^◌, Bool, true, false, Option, none, some, List, if◌then◌else◌}
use opennan.Prelude.Int.{pos, residue}
use opennan.LinkedList.{list_remove}
use opennan.Peer.{Peer, PeerState, Callback}
use opennan.Peer.Defs as Peers
use opennan.Service.Defs.{equal}
use opennan.Sync.Invariant.{IsSound, update_master_rank-IsSound}
use opennan.Sync.Defs.{SyncState}
use opennan.State.{NanState}
use opennan.Cmd.Text.{codes, strtok, strtok_args, cut, atoi}
use opennan.Cmd.Defs.{
  Context, Output, Outcome, done, null_pointer, removed, refused, value_set, with_rank, set_target,
  set_value, validate_number_range, is_registered, publish_service, subscribe_service, peer,
  peer_command, get_peer,
}
use opennan.Cmd.Terminal.{action}

module _ (T : List Peer → Type 0) where
  -- Our own rank is at or below that of the anchor master, and `T` holds of the peers.
  abbrev pub Sound : NanState → Type 0
  Sound s = IsSound s.sync × T s.peers.peers

  abbrev pub SoundState : Outcome → Type 0
  SoundState (done output s) = Sound s
  SoundState null_pointer = Unit {0}

  -- The state that is left, if there is one.
  pub record SoundOutcome (o : Outcome) : Type 0 where
    pub holds : SoundState o

  kept : (output : Output) (s : NanState) → Sound s → SoundOutcome (done output s)
  kept output s h = record { holds = h }

  either_sound :
      (c : Bool) (x y : Outcome)
      → SoundOutcome x
      → SoundOutcome y
      → SoundOutcome (if c then x else y)
  either_sound true x y h k = h
  either_sound false x y h k = k

  optional_sound {ℓ} :
      {A : Type ℓ} (o : Option A) (x : Outcome) (f : A → Outcome)
      → SoundOutcome x
      → ((a : A) → SoundOutcome (f a))
      → SoundOutcome (elim o as (λ o. Outcome) [ none ↦ x | some a ↦ f a ])
  optional_sound none x f h k = h
  optional_sound (some a) x f h k = k a

  no_string : SoundOutcome null_pointer
  no_string = record { holds = tt }

module _ (T : List Peer → Type 0)
    (removal_keeps : (c : Peer → Bool) (xs : List Peer) → T xs → T (list_remove c xs).1)
    (c : Context) (s : NanState) (h : Sound T s) where
  assigned :
      (valid : Bool) (sync' : SyncState)
      → IsSound sync'
      → SoundOutcome T (if valid then done value_set (with_rank s sync') else done refused s)
  assigned valid sync' k =
      either_sound T valid _ _
        (kept T value_set (with_rank s sync')
          (update_master_rank-IsSound sync' (some s.interface_address) k, h.1))
        (kept T refused s h)

  set_target-SoundOutcome : (target value : List ℕ) → SoundOutcome T (set_target s target value)
  unfolding set_target
  set_target-SoundOutcome target value =
      let number = residue (2 ^ 8) (atoi value) in
      let valid = validate_number_range value (pos 0) (pos 255) in
      either_sound T (equal target (codes "rf")) _ _
        (assigned valid (record s.sync { random_factor = number }) h.0)
        (either_sound T (equal target (codes "mp")) _ _
          (assigned valid (record s.sync { master_preference = number }) h.0) (kept T refused s h))

  set_value-SoundOutcome : (args : Option (List ℕ)) → SoundOutcome T (set_value s args)
  unfolding set_value
  set_value-SoundOutcome args =
      optional_sound T (strtok_args args).0 _ _ (kept T refused s h) (λ target.
        optional_sound T (strtok (strtok_args args).1).0 _ _ (kept T refused s h)
          (λ value. set_target-SoundOutcome target value))

  publish_service-SoundOutcome :
      (args : Option (List ℕ)) → SoundOutcome T (publish_service c s args)
  unfolding publish_service
  publish_service-SoundOutcome args =
      optional_sound T (strtok_args args).0 _ _ (no_string T) (λ name.
        either_sound T (is_registered s.services name) _ _ (kept T refused s h) (kept T _ _ h))

  subscribe_service-SoundOutcome :
      (args : Option (List ℕ)) → SoundOutcome T (subscribe_service c s args)
  unfolding subscribe_service
  subscribe_service-SoundOutcome none = no_string T
  subscribe_service-SoundOutcome (some args) =
      either_sound T (is_registered s.services (cut args)) _ _ (kept T refused s h)
        (optional_sound T (strtok args).0 _ _ (no_string T) (λ name. kept T _ _ h))

  remove-SoundOutcome :
      (p : Peer) (o : Option ℕ)
      → let removed_entry = elim o as (λ o. Option (Callback × PeerState)) [
        | none ↦ none
        | some f ↦ some (
          record { function = f; peer = p; argument = s.peers.peer_remove_callback_data },
          record s.peers { peers = (list_remove (Peers.same p) s.peers.peers).1 },
        )
      ] in
        SoundOutcome T (elim removed_entry as (λ o. Outcome) [
          | none ↦ null_pointer
          | some (call, peers') ↦ done (removed call) (record s { peers = peers' })
        ])
  remove-SoundOutcome p none = no_string T
  remove-SoundOutcome p (some f) = kept T _ _ (h.0, removal_keeps (Peers.same p) s.peers.peers h.1)

  peer_command-SoundOutcome : (p : Peer) (cmd : List ℕ) → SoundOutcome T (peer_command s p cmd)
  unfolding peer_command Peers.remove
  peer_command-SoundOutcome p cmd =
      either_sound T (equal cmd (codes "set")) _ _ (kept T refused s h) (
        either_sound T (equal cmd (codes "rm")) _ _
          (remove-SoundOutcome p s.peers.peer_remove_callback) (kept T refused s h))

  peer-SoundOutcome : (args : Option (List ℕ)) → SoundOutcome T (peer s args)
  unfolding peer
  peer-SoundOutcome none = kept T refused s h
  peer-SoundOutcome (some args) =
      optional_sound T (strtok args).0 _ _ (kept T refused s h) (λ address.
        optional_sound T (strtok (strtok args).1).0 _ _ (kept T refused s h) (λ cmd.
          optional_sound T (get_peer s (cut args)) _ _ (kept T refused s h)
            (λ p. peer_command-SoundOutcome p cmd)))

  pub action-SoundOutcome :
      (cmd : List ℕ) (args : Option (List ℕ)) → SoundOutcome T (action c s cmd args)
  unfolding action
  action-SoundOutcome cmd args = either_sound T (equal cmd (codes "v+")) _ _ (kept T _ s h) (
      either_sound T (equal cmd (codes "v-")) _ _ (kept T _ s h) (
        either_sound T (equal cmd (codes "publish")) _ _ (publish_service-SoundOutcome args) (
          either_sound T (equal cmd (codes "subscribe")) _ _ (subscribe_service-SoundOutcome args) (
            either_sound T (equal cmd (codes "set")) _ _ (set_value-SoundOutcome args) (
              either_sound T (equal cmd (codes "peer")) _ _ (peer-SoundOutcome args)
                (kept T refused s h))))))

-- ===== src/Cmd/Soundness.antt =====
-- The terminal and the listeners keep our master rank at or below that of the anchor master, and
-- what removing an entry keeps of the peers.
use opennan.Prelude.{ℕ, ◌≡◌, Bool, Option, none, some, List, [], ◌∷◌, arith, take}
use opennan.Utils.{EtherAddr}
use opennan.Event.{DiscoveryResult, Receive}
use opennan.Peer.{Peer}
use opennan.Ieee80211.{Radiotap}
use opennan.State.{NanState}
use opennan.Tx.Frames.{transmit, transmit_follow_up}
use opennan.Cmd.Text.{codes, non_empty, strtok, cut}
use opennan.Cmd.Defs.{Context, Output, Outcome, done, null_pointer, nothing}
use opennan.Cmd.Outcomes.{Sound, SoundOutcome, action-SoundOutcome}
use opennan.LinkedList.{list_remove}
use opennan.Cmd.Terminal.{
  Terminal, Handled, handled, crashed, forget, handle_cmd, handle_line, information, action,
  stdin_ready, line_length, c_string, handle_event_receive, handle_event_discovery_result,
}

module _ (T : List Peer → Type 0) where
  abbrev pub SoundTerminal : Handled → Type 0
  SoundTerminal (handled output t) = Sound T t.nan_state
  SoundTerminal crashed = Unit {0}

  abbrev pub SoundLine : Option Handled → Type 0
  SoundLine none = Unit {0}
  SoundLine (some x) = SoundTerminal x

  forget-SoundTerminal : (o : Outcome) → SoundOutcome T o → SoundTerminal (forget o)
  forget-SoundTerminal (done output s) h = h.holds
  forget-SoundTerminal null_pointer h = tt

module _ (T : List Peer → Type 0)
    (removal_keeps : (c : Peer → Bool) (xs : List Peer) → T xs → T (list_remove c xs).1)
    (c : Context) (t : Terminal) (h : Sound T t.nan_state) where
  handle_line-SoundTerminal : (input : List ℕ) → SoundTerminal T (handle_line c t input)
  unfolding handle_line
  handle_line-SoundTerminal input = by_word (strtok input)
    where
      by_output :
          (word : List ℕ) (args : Option (List ℕ)) (o : Option Output)
          → SoundTerminal T (elim o as (λ o. Handled) [
            | some output ↦ handled output (record t { last_cmd = some (cut input) })
            | none ↦ forget (action c t.nan_state word args)
          ])
      by_output word args (some output) = h
      by_output word args none =
          forget-SoundTerminal T _ (action-SoundOutcome T removal_keeps c t.nan_state h word args)

      by_word :
          (z : Option (List ℕ) × List ℕ)
          → SoundTerminal T (elim z.0 as (λ o. Handled) [
            | none ↦ crashed
            | some word ↦ elim (information word (non_empty z.1)) as (λ o. Handled) [
              | some output ↦ handled output (record t { last_cmd = some (cut input) })
              | none ↦ forget (action c t.nan_state word (non_empty z.1))
            ]
          ])
      by_word (none, rest) = tt
      by_word (some word, rest) =
          by_output word (non_empty rest) (information word (non_empty rest))

  handle_cmd-SoundTerminal : (input : List ℕ) → SoundTerminal T (handle_cmd c t input)
  unfolding handle_cmd
  handle_cmd-SoundTerminal (x ∷ input) = handle_line-SoundTerminal (x ∷ input)
  handle_cmd-SoundTerminal [] = by_last t.last_cmd
    where
      by_last :
          (o : Option (List ℕ))
          → SoundTerminal T (elim o as (λ o. Handled) [
            | none ↦ handled nothing t
            | some input ↦ handle_line c t input
          ])
      by_last none = h
      by_last (some input) = handle_line-SoundTerminal input

  pub stdin_ready-SoundLine : (buf : List ℕ) → SoundLine T (stdin_ready c t buf)
  unfolding stdin_ready
  stdin_ready-SoundLine buf = by_length (line_length buf)
    where
      by_length :
          (o : Option ℕ)
          → SoundLine T (elim o as (λ o. Option Handled) [
            | none ↦ none
            | some n ↦ some (handle_cmd c t (c_string (take n buf)))
          ])
      by_length none = tt
      by_length (some n) = handle_cmd-SoundTerminal (c_string (take n buf))

abbrev pub Same : NanState → NanState → Type 0
Same s s' = (s'.sync ≡ s.sync) × (s'.peers ≡ s.peers)

-- The listeners touch neither the synchronisation nor the peers.
pub handle_event_receive-Same :
    (c : Context) (s : NanState) (event : Receive) → Same s (handle_event_receive c s event)
unfolding handle_event_receive
handle_event_receive-Same c s event = ground arith

transmit-Same :
    (r : Radiotap) (memory : List ℕ) (ref : ℕ) (s : NanState) (destination : EtherAddr)
    (instance_id requestor : ℕ) (info : Option (List ℕ)) (n : ℕ)
    → Same s (transmit r memory ref s destination instance_id requestor info n).1
unfolding transmit transmit_follow_up
transmit-Same r memory ref s destination instance_id requestor info n = ground arith

pub handle_event_discovery_result-Same :
    (c : Context) (r : Radiotap) (memory : List ℕ) (ref : ℕ) (s : NanState)
    (event : DiscoveryResult)
    → Same s (handle_event_discovery_result c r memory ref s event).0
unfolding handle_event_discovery_result
handle_event_discovery_result-Same c r memory ref s event = ground (
  arith,
  transmit-Same r memory ref s event.address event.subscribe_id event.publish_id
      (some (codes "Hello world!")) 12,
)

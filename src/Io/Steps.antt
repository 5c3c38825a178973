-- ===== src/Io/Steps.antt =====
-- Steps of the setup against a plan: which requests are made, and which one fails.
use opennan.Prelude.{
  ℕ, ◌≡◌, refl, sym, ap, ap₂, ◌∙◌, Bool, true, false, not, ◌&&◌, List, [], ◌∷◌, ◌++◌, arith,
  if◌then◌else◌, Bool-cases, inl, inr,
}
use opennan.Prelude.Int.{ℤ}
use opennan.Channel.{channel_to_frequency}
use opennan.Netutils.{
  message, flags, Request, Action, Libnl, acquire, release, request, monitor_mode, tune,
  change_link, for_change, is_negative, is_zero, link_updown, set_monitor_mode, set_channel,
}
use opennan.Netutils.Objects.{requests}
use opennan.Io.{Attempt, ok, err, behind, unless_negative, unless_set, skip_if, ◌>>=◌}

requests-append : (xs ys : List Action) → requests (xs ++ ys) ≡ requests xs ++ requests ys
requests-append [] ys = refl
requests-append (acquire x ∷ xs) ys = requests-append xs ys
requests-append (release x ∷ xs) ys = requests-append xs ys
requests-append (request r ∷ xs) ys = ap (◌∷◌ r) (requests-append xs ys)

-- How a request ends: it cannot be made, it is made and fails, or it is made and succeeds.
pub data Ending : Type 0 where
  unable refused made : Ending

-- A step of a plan: a request, or a test that ends the setup if it fails.
pub data Step : Type 0 where
  asks : Request → Ending → Step
  checks : Bool → Step

abbrev pub is_made : Ending → Bool
is_made made = true
is_made _ = false

-- The requests of a plan up to its first failure, that one included if it is made.
abbrev pub asked : List Step → List Request
asked [] = []
asked (asks r made ∷ plan) = r ∷ asked plan
asked (asks r refused ∷ plan) = r ∷ []
asked (asks r unable ∷ plan) = []
asked (checks true ∷ plan) = asked plan
asked (checks false ∷ plan) = []

abbrev pub succeeds : List Step → Bool
succeeds [] = true
succeeds (asks r ending ∷ plan) = is_made ending && succeeds plan
succeeds (checks passed ∷ plan) = passed && succeeds plan

-- A setup makes exactly the requests of its plan, and succeeds exactly if all of its steps do.
abbrev pub Follows {ℓ} : {A : Type ℓ} → List Step → Attempt A → Type 0
Follows plan (ok a done) = (requests done ≡ asked plan) × (succeeds plan ≡ true)
Follows plan (err code done) = (requests done ≡ asked plan) × (succeeds plan ≡ false)

asked-append : (p q : List Step) → succeeds p ≡ true → asked (p ++ q) ≡ asked p ++ asked q
asked-append [] q h = refl
asked-append (asks r made ∷ p) q h = ap (◌∷◌ r) (asked-append p q h)
asked-append (asks r refused ∷ p) q h = absurd (ground (arith, h))
asked-append (asks r unable ∷ p) q h = absurd (ground (arith, h))
asked-append (checks true ∷ p) q h = asked-append p q h
asked-append (checks false ∷ p) q h = absurd (ground (arith, h))

asked-append_failed : (p q : List Step) → succeeds p ≡ false → asked (p ++ q) ≡ asked p
asked-append_failed [] q h = absurd (ground (arith, h))
asked-append_failed (asks r made ∷ p) q h = ap (◌∷◌ r) (asked-append_failed p q h)
asked-append_failed (asks r refused ∷ p) q h = refl
asked-append_failed (asks r unable ∷ p) q h = refl
asked-append_failed (checks true ∷ p) q h = asked-append_failed p q h
asked-append_failed (checks false ∷ p) q h = refl

succeeds-append : (p q : List Step) → succeeds (p ++ q) ≡ (succeeds p && succeeds q)
succeeds-append [] q = refl
succeeds-append (asks r made ∷ p) q = succeeds-append p q
succeeds-append (asks r refused ∷ p) q = refl
succeeds-append (asks r unable ∷ p) q = refl
succeeds-append (checks true ∷ p) q = succeeds-append p q
succeeds-append (checks false ∷ p) q = refl

pub Follows-behind {ℓ} :
    {A : Type ℓ} (p q : List Step) (before : List Action) (m : Attempt A)
    → requests before ≡ asked p
    → succeeds p ≡ true
    → Follows q m
    → Follows (p ++ q) (behind before m)
Follows-behind p q before (ok a done) e s (h, k) = (
  requests-append before done ∙ ap₂ (◌++◌) e h ∙ sym (asked-append p q s),
  succeeds-append p q ∙ ap₂ ◌&&◌ s k,
)
Follows-behind p q before (err code done) e s (h, k) = (
  requests-append before done ∙ ap₂ (◌++◌) e h ∙ sym (asked-append p q s),
  succeeds-append p q ∙ ap₂ ◌&&◌ s k,
)

pub Follows-bind {ℓ κ} :
    {A : Type ℓ} {B : Type κ} (p q : List Step) (m : Attempt A) (f : A → Attempt B)
    → Follows p m
    → ((a : A) → Follows q (f a))
    → Follows (p ++ q) (m >>= f)
Follows-bind p q (ok a done) f (h, s) k = Follows-behind p q done (f a) h s (k a)
Follows-bind p q (err code done) f (h, s) k =
    (h ∙ sym (asked-append_failed p q s), succeeds-append p q ∙ ap (λ c. c && succeeds q) s)

pub Follows-skip_if :
    (skip : Bool) (plan : List Step) (step : Attempt (Unit {0}))
    → Follows plan step
    → Follows (if skip then [] else plan) (skip_if skip step)
Follows-skip_if true plan step h = (refl, refl)
Follows-skip_if false plan step h = h

-- What a call does: whether it fails, and its request if that is made.
abbrev pub Ends : Request → Ending → Bool → List Action → Type 0
Ends r ending failed done =
    (failed ≡ not (is_made ending)) × (requests done ≡ asked (asks r ending ∷ []))

made_or_not :
    (r : Request) (ending : Ending) → succeeds (asks r ending ∷ []) ≡ not (not (is_made ending))
made_or_not r made = refl
made_or_not r refused = refl
made_or_not r unable = refl

pub unless_negative-Follows :
    (r : Request) (ending : Ending) (x : ℤ × List Action)
    → Ends r ending (is_negative x.0) x.1
    → Follows (asks r ending ∷ []) (unless_negative x)
unless_negative-Follows r ending (z, done) (h, k) = elim (Bool-cases (is_negative z)) [
  | inl e ↦ rw e (k, made_or_not r ending ∙ ap not (sym h ∙ e))
  | inr e ↦ rw e (k, made_or_not r ending ∙ ap not (sym h ∙ e))
]

pub unless_set-Follows :
    (r : Request) (ending : Ending) (x : ℤ × List Action)
    → Ends r ending (not (is_zero x.0)) x.1
    → Follows (asks r ending ∷ []) (unless_set x)
unless_set-Follows r ending (z, done) (h, k) = elim (Bool-cases (is_zero z)) [
  | inl e ↦ rw e (k, made_or_not r ending ∙ ap not (sym h ∙ ap not e))
  | inr e ↦ rw e (k, made_or_not r ending ∙ ap not (sym h ∙ ap not e))
]

-- The endings of the three requests, by what libnl returns.
module _ (n : Libnl) where
  -- The message is sent and answered; `failed` says of the answer whether it is an error.
  abbrev exchange : (ℤ → Bool) → Request → Ending
  exchange failed r =
      if is_negative (n.send r) then refused else if failed (n.nl_recvmsgs r) then refused else made

  abbrev pub link_ending : Bool → Ending
  link_ending up = if is_negative (n.rtnl_link_get_kernel (for_change up)) then unable else made

  abbrev pub monitor_ending : ℕ → Ending
  monitor_ending index =
      let r = monitor_mode index in
      if n.nlmsg_alloc r message
        && n.nla_put r message
        && n.nlmsg_alloc r flags
        && n.nla_put r flags
      then exchange is_negative r
      else unable

  abbrev pub channel_ending : ℕ → ℤ → Ending
  channel_ending index channel =
      let r = tune index (channel_to_frequency channel) in
      if not (is_zero (channel_to_frequency channel))
        && n.nlmsg_alloc r message
        && n.genlmsg_put r
        && n.nla_put r message
      then exchange (λ z. not (is_zero z)) r
      else unable

module _ (n : Libnl) (index : ℕ) where
  pub link_updown-Ends :
      (up : Bool)
      → let (z, done) = link_updown n index up in
        Ends (change_link index up) (link_ending n up) (is_negative z) done
  unfolding link_updown
  link_updown-Ends up = ground arith

  pub set_monitor_mode-Ends :
      let (z, done) = set_monitor_mode n index in
      Ends (monitor_mode index) (monitor_ending n index) (is_negative z) done
  unfolding set_monitor_mode
  set_monitor_mode-Ends = ground arith

  pub set_channel-Ends :
      (stack : Bool) (channel : ℤ)
      → let (z, done) = set_channel n stack index channel in
        Ends
          (tune index (channel_to_frequency channel))
          (channel_ending n index channel)
          (not (is_zero z))
          done
  unfolding set_channel
  set_channel-Ends stack channel = ground arith

-- ===== src/Service/Announce.antt =====
-- How often a service is announced.
use opennan.Prelude.{
  ℕ, zero, suc, ◌+◌, ◌-◌, ◌≡◌, refl, sym, ap, ◌∙◌, ltb, min, Bool, true, false, not, ◌&&◌, ◌||◌,
  leb, arith, ◌==◌, if◌then◌else◌,
}
use opennan.Prelude.Int.{ℤ, pos, negsuc, ◌-ℤ◌}
use opennan.Service.Defs.{
  Service, publish_solicited, subscribe_passive, should_announce, announced_once, is_published,
  is_zero,
}

-- What one transmission does to a service: counted if it is announced, else left alone.
unfoldable pub transmitted : Service → Service
transmitted x = if should_announce x then announced_once x else x

unfoldable pub transmissions : ℕ → Service → Service
transmissions zero x = x
transmissions (suc n) x = transmissions n (transmitted x)

-- In how many of the next `n` transmissions a service is announced.
unfoldable pub announced : ℕ → Service → ℕ
announced zero x = 0
announced (suc n) x = (if should_announce x then 1 else 0) + announced n (transmitted x)

-- A time to live bounds a number of announcements if it is not negative, and falls by them.
abbrev pub at_most : ℤ → ℕ → ℕ
at_most (pos ttl) k = min k ttl
at_most (negsuc m) k = k

abbrev pub lowered : ℤ → ℕ → ℤ
lowered (pos ttl) k = pos (ttl - k)
lowered (negsuc m) k = negsuc m

-- Whether a service goes out in every transmission until its time to live is over: an unsolicited
-- publish, or an active subscribe that was not replied to.
abbrev pub is_active : Service → Bool
is_active x =
    if is_published x.type
    then not (x.parameter_type == publish_solicited)
    else not (x.parameter_type == subscribe_passive) && not x.flag

active_announced :
    (x : Service) → is_active x ≡ true → should_announce x ≡ not (is_zero x.time_to_live)
unfolding should_announce
active_announced x h = ground arith

active_transmitted : (x : Service) → is_active x ≡ true → is_active (transmitted x) ≡ true
unfolding transmitted announced_once
active_transmitted x h = ground arith

ttl_transmitted :
    (x : Service) (m : ℕ)
    → is_active x ≡ true
    → x.time_to_live ≡ pos (suc m)
    → (transmitted x).time_to_live ≡ pos m
unfolding transmitted announced_once ◌-ℤ◌
ttl_transmitted x m h e = ground (arith, active_announced x h, e)

over : (n : ℕ) (x : Service) → is_active x ≡ true → x.time_to_live ≡ pos 0 → announced n x ≡ 0
unfolding announced transmitted
over zero x h e = refl
over (suc n) x h e = ground (arith, active_announced x h, e, over n x h e)

-- An active service with the time to live `ttl` is announced in as many of the next `n`
-- transmissions as its time to live allows, the smaller of both numbers.
pub announced_ttl :
    (n ttl : ℕ) (x : Service)
    → is_active x ≡ true
    → x.time_to_live ≡ pos ttl
    → announced n x ≡ min n ttl
unfolding announced
announced_ttl zero ttl x h e = omega arith
announced_ttl (suc n) zero x h e = over (suc n) x h e ∙ omega arith
announced_ttl (suc n) (suc m) x h e = ground (
  arith,
  active_announced x h,
  e,
  announced_ttl n m (transmitted x) (active_transmitted x h) (ttl_transmitted x m h e),
)

-- An active service with a negative time to live is announced in every transmission.
pub announced_forever :
    (n k : ℕ) (x : Service) → is_active x ≡ true → x.time_to_live ≡ negsuc k → announced n x ≡ n
unfolding announced transmitted announced_once
announced_forever zero k x h e = refl
announced_forever (suc n) k x h e =
    ground (arith, active_announced x h, e, announced_forever n k (transmitted x))

-- How many of the first `n` transmissions announce a service, in numbers: an unsolicited publish
-- and an active subscribe that was not replied to take part in all, a solicited publish in one
-- after it was asked for, and no service in more than its time to live.
abbrev pub turns : ℕ → Service → ℕ
turns n x =
    let wanted =
      if is_published x.type
      then if x.parameter_type == publish_solicited then if x.flag then min 1 n else 0 else n
      else if x.parameter_type == subscribe_passive || x.flag
      then 0
      else n in
    at_most x.time_to_live wanted

-- A service after so many announcements: each takes one off a positive time to live, and the first
-- one clears the flag of a publish.
abbrev pub aged : ℕ → Service → Service
aged k x = record x {
  time_to_live = lowered x.time_to_live k;
  flag = if is_published x.type && leb 1 k then false else x.flag;
}

turns_zero : (x : Service) → (turns 0 x ≡ 0) × (aged 0 x ≡ x)
turns_zero x = ground arith

turns_one : (x : Service) → turns 1 x ≡ (if should_announce x then 1 else 0)
unfolding should_announce
turns_one x = ground arith

turns_step : (n : ℕ) (x : Service) → turns (suc n) x ≡ turns 1 x + turns n (transmitted x)
unfolding should_announce transmitted announced_once ◌-ℤ◌
turns_step n x = ground arith

aged_step :
    (n : ℕ) (x : Service)
    → aged (turns (suc n) x) x ≡ aged (turns n (transmitted x)) (transmitted x)
unfolding should_announce transmitted announced_once ◌-ℤ◌
aged_step n x = ground arith

-- What some transmissions make of a service.
pub transmissions-aged : (n : ℕ) (x : Service) → transmissions n x ≡ aged (turns n x) x
unfolding transmissions
transmissions-aged zero x = sym ((turns_zero x).1) ∙ ap (λ k. aged k x) (sym (turns_zero x).0)
transmissions-aged (suc n) x = transmissions-aged n (transmitted x) ∙ sym (aged_step n x)

turns_last : (n : ℕ) (x : Service) → turns (suc n) x ≡ turns n x + turns 1 (transmissions n x)
unfolding transmissions
turns_last zero x = omega (arith, (turns_zero x).0)
turns_last (suc n) x =
    omega (arith, turns_step (suc n) x, turns_step n x, turns_last n (transmitted x))

-- After some transmissions a service is to be announced if the next one is a turn of it.
pub should_announce-turns :
    (n : ℕ) (x : Service) → should_announce (transmissions n x) ≡ ltb (turns n x) (turns (suc n) x)
should_announce-turns n x =
    one_more (turns n x) (should_announce (transmissions n x))
    ∙ ap (ltb (turns n x))
        (ap (λ k. turns n x + k) (sym (turns_one (transmissions n x))) ∙ sym (turns_last n x))
  where
    one_more : (m : ℕ) (c : Bool) → c ≡ ltb m (m + (if c then 1 else 0))
    one_more m true = ground arith
    one_more m false = ground arith

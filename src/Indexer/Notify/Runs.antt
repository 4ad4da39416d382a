-- ===== src/Indexer/Notify/Runs.antt =====
-- apps/indexer/src/notify.ts: run, one pass at a time, whoever asks and whenever.
use cancel_chain.Common.{
  ℕ, suc, ◌≡◌, ◌⊎◌, ◌<◌, ◌≤◌, Bool, true, false, Option, none, some, arith, if◌then◌else◌, sym, ◌∙◌,
}

-- `running !== null` and `again`; `started` counts the passes that have begun, and `asked` is how
-- many had when somebody asked last.
pub record Running : Type 0 where
  pub running : Bool
  pub again : Bool
  pub started : ℕ
  pub asked : Option ℕ

abbrev pub idle : Running
idle = record { running = false; again = false; started = 0; asked = none }

-- `run()`: a pass begins at once, or the running one is told to go on.
unfoldable pub call : Running → Running
call s =
    if s.running
    then record s { again = true; asked = some s.started }
    else record s { running = true; started = suc s.started; asked = some s.started }

-- A pass ends: another begins where somebody asked meanwhile.
unfoldable pub pass_ends : Running → Running
pass_ends s =
    if s.again
    then record s { again = false; started = suc s.started }
    else record s { running = false }

-- What may happen, in any order, as long as no pass throws.
pub data Step : Running → Running → Type 0 where
  called : (s : Running) → Step s (call s)
  ended : (s : Running) → s.running ≡ true → Step s (pass_ends s)

pub data Reached : Running → Type 0 where
  at_first : Reached idle
  then_step : (s t : Running) → Reached s → Step s t → Reached t

-- Nobody waits for a pass that does not begin.
pub record IsServed (s : Running) : Type 0 where
  pub calm : s.again ≡ true → s.running ≡ true
  pub before : (n : ℕ) → s.asked ≡ some n → n ≤ s.started
  pub later : (n : ℕ) → s.asked ≡ some n → (n < s.started) ⊎ (s.again ≡ true)

asked-ended : (s : Running) → (pass_ends s).asked ≡ s.asked
unfolding pass_ends
asked-ended s = ground arith

step-IsServed : (s t : Running) → Step s t → IsServed s → IsServed t
unfolding call pass_ends
step-IsServed _ _ (called s) h = record {
  calm = ground (arith, h.calm);
  before = λ n a. ground (arith, a);
  later = λ n a. ground (arith, a);
}
step-IsServed _ _ (ended s on) h = record {
  calm = ground (arith, h.calm);
  before = λ n a. ground (arith, h.before n (sym (asked-ended s) ∙ a));
  later = λ n a.
      ground (arith, h.later n (sym (asked-ended s) ∙ a), h.before n (sym (asked-ended s) ∙ a));
}

served : (s : Running) → Reached s → IsServed s
served _ at_first = record {
  calm = λ a. a;
  before = λ n a. absurd (ground arith);
  later = λ n a. absurd (ground arith);
}
served _ (then_step s t r step) = step-IsServed s t step (served s r)

-- However calls and ends of passes follow one another, as long as no pass throws, a call that comes
-- while a pass runs is never lost: whenever the notifier is idle, a pass has begun after the last
-- call.
pub Reached-IsServed :
    (s : Running) (n : ℕ) → Reached s → s.running ≡ false → s.asked ≡ some n → n < s.started
Reached-IsServed s n r off a = let h = served s r in ground (arith, h.later n a, h.calm, off)

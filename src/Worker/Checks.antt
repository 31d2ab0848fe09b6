-- ===== src/Worker/Checks.antt =====
-- The checks of src/worker/mod.rs between two steps of a transfer: how they end, and what they leave
-- of the worker.
use paradown.Prelude.{Bool, true, false, not, ◌≡◌, refl, ◌∙◌, List, [], ◌∷◌, arith, if◌then◌else◌}
use paradown.Status.{Status}
use paradown.Worker.{
  WorkerState, Control, pause_call, resume_call, cancel_call, delete_call, call, apply_calls, Flow,
  proceed, stop, waiting, Point, checkpoint, wait_until_resumed, should_stop_gracefully, pause_from,
}

-- Two states of a worker with the same lane, progress and source.
pub record Same (a b : WorkerState) : Type 0 where
  pub id : b.id ≡ a.id
  pub length_known : b.length_known ≡ a.length_known
  pub start : b.start ≡ a.start
  pub end : b.end ≡ a.end
  pub downloaded_size : b.downloaded_size ≡ a.downloaded_size
  pub source : b.source ≡ a.source

pub Same-refl : (a : WorkerState) → Same a a
Same-refl a = record {
  id = refl;
  length_known = refl;
  start = refl;
  end = refl;
  downloaded_size = refl;
  source = refl;
}

pub Same-trans : (a b c : WorkerState) → Same a b → Same b c → Same a c
Same-trans a b c p q = record {
  id = q.id ∙ p.id;
  length_known = q.length_known ∙ p.length_known;
  start = q.start ∙ p.start;
  end = q.end ∙ p.end;
  downloaded_size = q.downloaded_size ∙ p.downloaded_size;
  source = q.source ∙ p.source;
}

pause_from-Same : (status : Status) (w : WorkerState) → Same w (pause_from status w)
pause_from-Same Status.paused w = Same-refl w
pause_from-Same status w = ground arith

call-Same : (c : Control) (w : WorkerState) → Same w (call c w)
unfolding call
call-Same pause_call w =
    let h = pause_from-Same w.status (record w { paused = true }) in
    record {
      id = h.id;
      length_known = h.length_known;
      start = h.start;
      end = h.end;
      downloaded_size = h.downloaded_size;
      source = h.source;
    }
call-Same resume_call w = ground arith
call-Same cancel_call w = ground arith
call-Same delete_call w = ground arith

pub apply_calls-Same : (cs : List Control) (w : WorkerState) → Same w (apply_calls cs w)
unfolding apply_calls
apply_calls-Same [] w = Same-refl w
apply_calls-Same (c ∷ cs) w =
    Same-trans w (call c w) (apply_calls cs (call c w)) (call-Same c w)
      (apply_calls-Same cs (call c w))

-- What the end of a check says of the flags.
abbrev pub Ended : WorkerState → Flow → Type 0
Ended w proceed = Unit
Ended w stop = should_stop_gracefully w ≡ true
Ended w waiting = (w.paused ≡ true) × (should_stop_gracefully w ≡ false)

abbrev Checked : WorkerState → WorkerState × Flow → Type 0
Checked w r = Same w r.0 × Ended r.0 r.1

last_poll :
    (w : WorkerState) (paused stopped : Bool)
    → w.paused ≡ paused
    → should_stop_gracefully w ≡ stopped
    → Checked w (w, if paused then (if stopped then stop else waiting) else proceed)
last_poll w false stopped p e = (Same-refl w, tt)
last_poll w true true p e = (Same-refl w, e)
last_poll w true false p e = (Same-refl w, (p, e))

next_poll :
    (w : WorkerState) (rest : WorkerState × Flow) (paused stopped : Bool)
    → should_stop_gracefully w ≡ stopped
    → Checked w rest
    → Checked w (if not paused then (w, proceed) else if stopped then (w, stop) else rest)
next_poll w rest false stopped e h = (Same-refl w, tt)
next_poll w rest true true e h = (Same-refl w, e)
next_poll w rest true false e h = h

wait_until_resumed_lem :
    (polls : List (List Control)) (w : WorkerState) → Checked w (wait_until_resumed polls w)
unfolding wait_until_resumed
wait_until_resumed_lem [] w = last_poll w w.paused (should_stop_gracefully w) refl refl
wait_until_resumed_lem (calls ∷ polls) w =
    let h = wait_until_resumed_lem polls (apply_calls calls w) in
    next_poll w _ w.paused (should_stop_gracefully w) refl
      (Same-trans w (apply_calls calls w) _ (apply_calls-Same calls w) h.0, h.1)

first_check :
    (w called : WorkerState) (rest : WorkerState × Flow) (stopped : Bool)
    → should_stop_gracefully called ≡ stopped
    → Same w called
    → Checked called rest
    → Checked w (if stopped then (called, stop) else rest)
first_check w called rest true e s h = (s, e)
first_check w called rest false e s h = (Same-trans w called rest.0 s h.0, h.1)

-- A check leaves the lane, the progress and the source; it stops only a canceled or deleted worker,
-- and goes on waiting only with a paused one that is neither.
pub checkpoint_lem :
    (point : Point) (w : WorkerState) → let r = checkpoint point w in Same w r.0 × Ended r.0 r.1
unfolding checkpoint
checkpoint_lem point w =
    let called = apply_calls point.calls w in
    first_check w called _ (should_stop_gracefully called) refl (apply_calls-Same point.calls w)
      (wait_until_resumed_lem point.polls called)

-- Two states of a worker with the same lane and source.
pub record SameLane (a b : WorkerState) : Type 0 where
  pub id : b.id ≡ a.id
  pub length_known : b.length_known ≡ a.length_known
  pub start : b.start ≡ a.start
  pub end : b.end ≡ a.end

pub Same-lane : (a b : WorkerState) → Same a b → SameLane a b
Same-lane a b p = record { id = p.id; length_known = p.length_known; start = p.start; end = p.end }

pub SameLane-refl : (a : WorkerState) → SameLane a a
SameLane-refl a = record { id = refl; length_known = refl; start = refl; end = refl }

pub SameLane-trans : (a b c : WorkerState) → SameLane a b → SameLane b c → SameLane a c
SameLane-trans a b c p q = record {
  id = q.id ∙ p.id;
  length_known = q.length_known ∙ p.length_known;
  start = q.start ∙ p.start;
  end = q.end ∙ p.end;
}

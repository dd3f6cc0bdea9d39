-- ===== src/Signal/Return.antt =====
-- A handler's return undoes its delivery.
use lxp.Common.{
  ℕ, ◌+◌, ◌-◌, ◌≤◌, ◌<◌, ◌≡◌, ◌≢◌, refl, ap, ◌∙◌, Bool, true, false, arith, ◌==◌, ◌/◌, ◌%◌, ◌*◌,
  ◌^◌, inl, inr, some, Bool-cases, Option-cases, leb, ◌||◌, if◌then◌else◌,
}
use lxp.Proc.{Proc}
use lxp.Signal.{nsig, has, sig_blocked, handler_get, restorer_get}
use lxp.Signal.Deliver.{
  Guest, Frame, Stack, Action, handler, resumes, deliver, prepare, act, restore, resolve_handler,
  clear_thumb, set_thumb, set_t_bit, saved, entered, put,
}

-- The delivery of `sig` starts a handler.
abbrev pub Handles : Guest → ℕ → Proc → Stack → ℕ → Type 0
Handles g nest p s sig =
    (entry : ℕ) × (got : ℕ) × (back : ℕ) × (i : ℕ) × ((prepare g nest p s sig).0
      ≡ handler entry got back i)

-- The mask that the interrupted code ran under.
abbrev pub mask_before : Proc → ℕ → Bool
mask_before p = if p.sigsuspend_active then p.sigsuspend_saved_mask else p.sig_blocked

prepare_handler :
    (g : Guest) (nest : ℕ) (p : Proc) (s : Stack) (sig entry got back i : ℕ)
    → (prepare g nest p s sig).0 ≡ handler entry got back i
    → (i ≡ s.depth)
      × (s.depth < nest)
      × ((prepare g nest p s sig).2.depth ≡ s.depth + 1)
      × (((prepare g nest p s sig).2.frame i).saved_mask ≡ mask_before p)
unfolding prepare
prepare_handler g nest p s sig entry got back i e = ground arith

-- Where the handler of `sig` starts, the word for r9 and where it returns to: its registered address and
-- the registered restorer, or in FDPIC what their descriptors in the guest's memory hold.
pub data Target (g : Guest) (p : Proc) (sig entry got back : ℕ) : Type 0 where
  direct :
      p.is_fdpic ≡ false
      → entry ≡ handler_get p sig
      → back ≡ restorer_get p
      → Target g p sig entry got back
  described :
      p.is_fdpic ≡ true
      → g.pair (handler_get p sig) ≡ some (entry, got)
      → g.word (restorer_get p) ≡ some back
      → Target g p sig entry got back

resolve_handler-Target :
    (g : Guest) (p : Proc) (sig entry got back : ℕ)
    → resolve_handler g p sig ≡ some (entry, got, back)
    → Target g p sig entry got back
unfolding resolve_handler
resolve_handler-Target g p sig entry got back e = elim (Bool-cases p.is_fdpic) [
  | inl f ↦ elim (Option-cases (g.pair (handler_get p sig))) [
    | inl h ↦ absurd (ground (arith, e, f, h))
    | inr ((a, b), h) ↦ elim (Option-cases (g.word (restorer_get p))) [
      | inl k ↦ absurd (ground (arith, e, f, h, k))
      | inr (c, k) ↦ Target.described f (ground (arith, e, f, h, k)) (ground (arith, e, f, h, k))
    ]
  ]
  | inr f ↦ Target.direct f (ground (arith, e, f)) (ground (arith, e, f))
]

prepare_resolved :
    (g : Guest) (nest : ℕ) (p : Proc) (s : Stack) (sig entry got back i : ℕ)
    → (prepare g nest p s sig).0 ≡ handler entry got back i
    → resolve_handler g p sig ≡ some (entry, got, back)
unfolding prepare
prepare_resolved g nest p s sig entry got back i e = ground arith

prepare_guards :
    (g : Guest) (nest : ℕ) (p : Proc) (s : Stack) (sig entry got back i : ℕ)
    → (prepare g nest p s sig).0 ≡ handler entry got back i
    → ((sig == 0 || leb nsig sig) ≡ false)
      × (has (prepare g nest p s sig).1.sig_blocked sig ≡ true)
      × ((prepare g nest p s sig).1.is_fdpic ≡ p.is_fdpic)
unfolding prepare
prepare_guards g nest p s sig entry got back i e = ground arith

prepare_below :
    (g : Guest) (nest : ℕ) (p : Proc) (s : Stack) (sig k : ℕ)
    → k < s.depth
    → (prepare g nest p s sig).2.frame k ≡ s.frame k
unfolding prepare
prepare_below g nest p s sig k lt = ground arith

-- What the delivery of a handler leaves.
pub record Delivered (nest : ℕ) (f : Frame) (p : Proc) (s : Stack) (sig ret entry got back : ℕ)
    (f' : Frame) (p' : Proc) (s' : Stack) : Type 0 where
  pub depth : s'.depth ≡ s.depth + 1
  pub fits : s'.depth ≤ nest
  pub top : s'.frame s.depth ≡ saved f ret (mask_before p)
  pub below : (k : ℕ) → k < s.depth → s'.frame k ≡ s.frame k
  pub signo : f'.r 0 ≡ sig
  pub others : (k : ℕ) → k ≢ 0 → k ≢ 9 → k ≢ 14 → k ≢ 15 → f'.r k ≡ f.r k
  pub starts : f'.r 15 + entry % 2 ≡ entry
  pub returns : f'.r 14 ≡ back / 2 * 2 + 1
  pub thumb : f'.xpsr / 2 ^ 24 % 2 ≡ 1
  pub kept : p.is_fdpic ≡ false → f'.r 9 ≡ f.r 9
  pub base : p.is_fdpic ≡ true → f'.r 9 ≡ got
  pub masked : has p'.sig_blocked sig ≡ true

act_handler :
    (f : Frame) (sig ret : ℕ) (a : Action) (p : Proc) (s : Stack) (entry got back i : ℕ)
    → a ≡ handler entry got back i
    → act f sig ret (a, p, s) ≡ (
      resumes (entered p.is_fdpic f sig entry got back),
      p,
      record s { frame = put s.frame i (saved f ret (s.frame i).saved_mask) },
    )
unfolding act
act_handler f sig ret a p s entry got back i e = ground arith

deliver-act :
    (g : Guest) (nest : ℕ) (f : Frame) (p : Proc) (s : Stack) (sig ret : ℕ)
    → (sig == 0 || leb nsig sig) ≡ false
    → sig_blocked p sig ≡ false
    → deliver g nest f p s sig ret ≡ act f sig ret (prepare g nest p s sig)
unfolding deliver
deliver-act g nest f p s sig ret valid free = rw (valid, free)

entered_pc : (x : ℕ) → clear_thumb x + x % 2 ≡ x
entered_pc x = omega arith

entered_lr : (x : ℕ) → set_thumb x ≡ x / 2 * 2 + 1
entered_lr x = omega arith

entered_thumb : (x : ℕ) → set_t_bit x / 2 ^ 24 % 2 ≡ 1
entered_thumb x = ground arith

-- A signal that is not blocked and has a handler is delivered by reserving the next save frame
-- within the nesting limit: the frame keeps the interrupted context and the mask from before, no
-- other live frame changes, and the signal is blocked. The guest resumes at the handler's address
-- without its Thumb bit, in Thumb state, with the signal number in r0, the restorer's address with
-- its Thumb bit in lr, and in FDPIC the handler's data address in r9; these are the registered
-- addresses, or in FDPIC what the guest's memory holds there. Every other register is as it was.
pub deliver-Delivered :
    (g : Guest) (nest : ℕ) (f : Frame) (p : Proc) (s : Stack) (sig ret : ℕ)
    → sig_blocked p sig ≡ false
    → Handles g nest p s sig
    → let (o, p', s') = deliver g nest f p s sig ret in
      (f' : Frame) × (entry : ℕ) × (got : ℕ) × (back : ℕ) × (o ≡ resumes f')
      × Target g p sig entry got back
      × Delivered nest f p s sig ret entry got back f' p' s'
deliver-Delivered g nest f p s sig ret free (entry, got, back, i, e) =
    rw (deliver-act g nest f p s sig ret guards.0 free) (
      rw (act_handler f sig ret a p1 s1 entry got back i e) (
        entered p1.is_fdpic f sig entry got back,
        entry,
        got,
        back,
        refl,
        resolve_handler-Target g p sig entry got back
            (prepare_resolved g nest p s sig entry got back i e),
        record {
          depth = facts.2;
          fits = omega (arith, facts.2, facts.1);
          top = ground (arith, facts);
          below = λ k lt. ground (arith, facts, prepare_below g nest p s sig k lt);
          signo = ground arith;
          others = λ k n0 n9 n14 n15. ground arith;
          starts = entered_pc entry;
          returns = entered_lr back;
          thumb = entered_thumb f.xpsr;
          kept = λ n. ground (arith, guards);
          base = λ n. ground (arith, guards);
          masked = guards.1;
        },
      ))
  where
    a : Action
    a = (prepare g nest p s sig).0

    p1 : Proc
    p1 = (prepare g nest p s sig).1

    s1 : Stack
    s1 = (prepare g nest p s sig).2

    guards :
        ((sig == 0 || leb nsig sig) ≡ false)
        × (has p1.sig_blocked sig ≡ true)
        × (p1.is_fdpic ≡ p.is_fdpic)
    guards = prepare_guards g nest p s sig entry got back i e

    facts :
        (i ≡ s.depth)
        × (s.depth < nest)
        × (s1.depth ≡ s.depth + 1)
        × ((s1.frame i).saved_mask ≡ mask_before p)
    facts = prepare_handler g nest p s sig entry got back i e

-- What a return from a handler gives back of the interrupted context.
pub record Resumed (f : Frame) (ret : ℕ) (p : Proc) (s : Stack) (f' : Frame) (p' : Proc)
    (s' : Stack) : Type 0 where
  pub depth : s'.depth ≡ s.depth
  pub mask : p'.sig_blocked ≡ mask_before p
  pub answer : f'.r 0 ≡ ret
  pub pc : f'.r 15 ≡ clear_thumb (f.r 15)
  pub r1 : f'.r 1 ≡ f.r 1
  pub r2 : f'.r 2 ≡ f.r 2
  pub r3 : f'.r 3 ≡ f.r 3
  pub r7 : f'.r 7 ≡ f.r 7
  pub r9 : f'.r 9 ≡ f.r 9
  pub r12 : f'.r 12 ≡ f.r 12
  pub lr : f'.r 14 ≡ f.r 14
  pub xpsr : f'.xpsr ≡ f.xpsr

-- Whatever a handler does to its registers and its mask, and whatever signals are delivered and
-- returned from inside it, a return that finds the stack at the depth that the delivery left, with
-- the frame that it saved, resumes the interrupted context: the call's result in r0, the program
-- counter without its Thumb bit, the status, lr and r1, r2, r3, r7, r9 and r12, and the signal
-- mask, which is the one from before `rt_sigsuspend` if that call was waiting.
pub restore-Resumed :
    (f f2 : Frame) (ret : ℕ) (p p2 : Proc) (s s2 : Stack)
    → s2.depth ≡ s.depth + 1
    → s2.frame s.depth ≡ saved f ret (mask_before p)
    → let (f', p', s') = restore f2 p2 s2 in
      Resumed f ret p s f' p' s' × ((k : ℕ) → s'.frame k ≡ s2.frame k)
unfolding restore
restore-Resumed f f2 ret p p2 s s2 d e =
    rw (live, top)
      (
        record {
          depth = omega arith;
          mask = refl;
          answer = refl;
          pc = refl;
          r1 = refl;
          r2 = refl;
          r3 = refl;
          r7 = refl;
          r9 = refl;
          r12 = refl;
          lr = refl;
          xpsr = refl;
        },
        λ k. refl,
      )
  where
    live : (s2.depth == 0) ≡ false
    live = ground arith

    top : s2.frame (s2.depth - 1) ≡ saved f ret (mask_before p)
    top = ap s2.frame (omega arith) ∙ e

-- ===== src/Thread.antt =====
-- The life of a worker's thread, dis_wq_thread of driver/dis_qp.c with dis_wq_init and dis_wq_exit, while
-- another thread posts to the queue, a third one polls its completions, one may tell it to stop, and a
-- fatal signal may come.
--
-- A step is one access of the worker to what it shares: the flag, the head of the ring, the tail; or
-- one posting, one notification, kthread_stop or a signal from outside. An entry takes three steps, so
-- that the others move in between: it is found; it is consumed, with all attempts of the message
-- library, and its completion posted under the lock; and the tail is stored. At most one thread
-- posts at a time.
pub mod Join
pub mod Inv
pub mod Unfinished
pub mod Reached
pub mod Wakeup
pub mod Live
pub mod Stop
pub mod Trace
pub mod Waiting
pub mod Kept
pub mod Once
pub mod Foreign
pub mod Shared
mod Tests
mod OnceTests
use dis_kverbs.Common.{
  ℕ, Bool, true, false, List, [], ◌∷◌, ◌++◌, Option, none, some, ◌≡◌, ◌≢◌, ◌⊎◌, ltb, get_or, set,
}
use dis_kverbs.Events.{Event, acquire, release}
use dis_kverbs.Kernel.{CircBuf}
use dis_kverbs.Cq.{dis_poll_cq}
use dis_kverbs.Verbs.{
  Ret, done, fail, Iovec, WcOpcode, WcStatus, wc_success, DisWq, DisCq, DisWqType, dis_sq, dis_rq,
  wq_empty, wq_running, wq_exited, zero_wqe, circ_next,
}
use dis_kverbs.Post.{IbWr, Mem, post_one}
use dis_kverbs.Qp.{dis_qp_notify}
use dis_kverbs.SciIf.{
  SciParams, SciError, SciReply, MsqEnd, created, connected, dis_sci_if_create_msq,
  dis_sci_if_connect_msq, dis_sci_if_remove_msq, dis_sci_if_disconnect_msq,
}
use dis_kverbs.Worker.{Consumed, consume_one}

-- One attempt of dis_wq_init to join the message queue, with what SCILib answers.
pub join_msq : SciParams → SciError → DisWq → Ret
join_msq p err wq = elim wq.wq_type [
  | dis_rq ↦ dis_sci_if_create_msq p (λ _. err) wq
  | dis_sq ↦ dis_sci_if_connect_msq p (λ _. err) wq
]

-- dis_wq_init, with the answers up to the moment at which the thread is told to stop.
pub dis_wq_init : SciParams → List SciError → DisWq → Ret
dis_wq_init p [] wq = fail 42
dis_wq_init p (err ∷ errs) wq =
    let rest = dis_wq_init p errs wq in elim (join_msq p err wq) [ done ↦ done | fail _ ↦ rest ]

-- The end that dis_wq_init joins, and the one that dis_wq_exit gives back.
pub joined : DisWq → MsqEnd
joined wq = elim wq.wq_type [ dis_rq ↦ created wq.sci_msq | dis_sq ↦ connected wq.sci_msq ]

pub dis_wq_exit : DisWq → MsqEnd
dis_wq_exit wq = elim wq.wq_type [
  | dis_rq ↦ dis_sci_if_remove_msq wq
  | dis_sq ↦ dis_sci_if_disconnect_msq wq
]

-- Where the thread stands: before its function; in dis_wq_init; before the flag is cleared; in
-- dis_wq_consume_all, before an entry, within one, and before the tail is stored; in
-- wait_event_killable; before dis_wq_exit;
-- returned; and ended without its function being called.
pub data Pc : Type 0 where
  starting connecting clearing consuming processing advancing waiting leaving gone never_ran : Pc

-- `told` is kthread_should_stop, `signaled` whether a fatal signal is pending, and `posting` holds between
-- a posting and its notification.
pub record System : Type 0 where
  pub wq : DisWq
  pub cq : DisCq
  pub pc : Pc
  pub told : Bool
  pub signaled : Bool
  pub posting : Bool
  pub events : List (Event MsqEnd)

abbrev pub is_done : Ret → Bool
is_done done = true
is_done (fail _) = false

-- The code's test for an empty queue.
pub is_drained : CircBuf → DisWq → Bool
is_drained c wq = ltb (c.circ_cnt wq.head wq.tail wq.wqe_max) 1

module _ (c : CircBuf) (p : SciParams) where
  -- A step of the thread. Once told to stop, it may still complete the entry that it is at.
  pub data Turn (s : System) : System → Type 0 where
    start :
        s.pc ≡ starting
        → Turn s (record s { wq = record (s.wq) { wq_state = wq_running }; pc = connecting })
    join :
        (err : SciError)
        → s.pc ≡ connecting
        → s.told ≡ false
        → join_msq p err s.wq ≡ done
        → Turn s (record s { pc = clearing; events = s.events ++ acquire (joined s.wq) ∷ [] })
    give_up :
        s.pc ≡ connecting
        → s.told ≡ true
        → Turn s (record s { wq = record (s.wq) { wq_state = wq_exited }; pc = gone })
    clear :
        s.pc ≡ clearing
        → s.told ≡ false
        → Turn s (record s { wq = record (s.wq) { wq_flag = wq_empty }; pc = consuming })
    fetch :
        s.pc ≡ consuming
        → s.told ≡ false
        → is_drained c s.wq ≡ false
        → Turn s (record s { pc = processing })
    finish :
        (replies : List SciReply) (one : Consumed)
        → s.pc ≡ processing
        → one ≡ consume_one c s.wq.wq_type s.cq (get_or s.wq.buf s.wq.tail zero_wqe) replies
        → (one.wc_status ≡ wc_success) ⊎ (s.told ≡ true)
        → Turn s (record s {
          wq = record (s.wq) { buf = set s.wq.buf s.wq.tail one.wqe };
          cq = one.cq;
          pc = advancing;
        })
    advance :
        s.pc ≡ advancing
        → Turn s (record s {
          wq = record (s.wq) { tail = circ_next s.wq.tail s.wq.wqe_max };
          pc = consuming;
        })
    drained :
        s.pc ≡ consuming
        → s.told ≡ false
        → is_drained c s.wq ≡ true
        → Turn s (record s { pc = waiting })
    wake :
        s.pc ≡ waiting
        → (s.wq.wq_flag ≢ wq_empty) ⊎ (s.told ≡ true)
        → Turn s (record s { pc = clearing })
    kill : s.pc ≡ waiting → s.signaled ≡ true → Turn s (record s { pc = leaving })
    stop :
        (s.pc ≡ clearing) ⊎ (s.pc ≡ consuming) → s.told ≡ true → Turn s (record s { pc = leaving })
    leave :
        s.pc ≡ leaving
        → Turn s (record s {
          wq = record (s.wq) { wq_state = wq_exited };
          pc = gone;
          events = s.events ++ release (dis_wq_exit s.wq) ∷ [];
        })

  module _ (kmalloc : ℕ → Option (ℕ × List Iovec)) (mem : Mem) where
    -- A step of the thread or of the others. A thread that is told to stop before it first runs ends
    -- without its function being called.
    pub data Step (s : System) : System → Type 0 where
      turn : {t : System} → Turn s t → Step s t
      post :
          (opcode : WcOpcode) (wr : IbWr) (ret : Ret) (wq : DisWq)
          → s.posting ≡ false
          → post_one c kmalloc mem opcode s.wq wr ≡ some (ret, wq)
          → Step s (record s { wq = wq; posting = is_done ret })
      notify : s.posting ≡ true → Step s (record s { wq = (dis_qp_notify s.wq).1; posting = false })
      tell : Step s (record s { told = true })
      signal : Step s (record s { signaled = true })
      poll : (n : ℕ) → Step s (record s { cq = (dis_poll_cq c s.cq n).1 })
      skip : s.pc ≡ starting → s.told ≡ true → Step s (record s { pc = never_ran })

    pub data Reach (s : System) : System → Type 0 where
      here : Reach s s
      next : {t u : System} → Reach s t → Step t u → Reach s u

-- Steps of the thread alone.
module _ (c : CircBuf) (p : SciParams) where
  pub data Works : System → System → Type 0 where
    rest : {s : System} → Works s s
    work : {s t u : System} → Turn c p s t → Works t u → Works s u

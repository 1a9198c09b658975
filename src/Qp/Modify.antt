-- ===== src/Qp/Modify.antt =====
-- The states of a queue pair.
use dis_kverbs.Common.{arith, sym, ap₂, ◌∙◌, ℕ, suc, ◌≡◌, ◌≢◌, refl, ◌⊎◌, true, if◌then◌else◌}
use dis_kverbs.Verbs.{Ret, done, fail, DisWq, wq_empty, wq_initialized, wq_exited}
use dis_kverbs.Qp.{
  QpState, DisQp, QpAttr, qps_rtr, dis_qp_init, set_qpn, set_mtu, start_threads, change_state,
  changed, dis_modify_qp,
}

-- What a change may end in: it is made, or -42 is returned and the state stays.
abbrev pub Moved : QpState → QpState → Ret × DisQp → Type 0
Moved old new (ret, qp) = ((ret ≡ done) × (qp.state ≡ new)) ⊎ ((ret ≡ fail 42) × (qp.state ≡ old))

set_same : (attr : QpAttr) (qp : DisQp) → (set_mtu attr (set_qpn attr qp)).state ≡ qp.state
unfolding set_mtu set_qpn
set_same attr qp = ground arith

start_threads-Moved :
    (a b : ℕ) (qp : DisQp) (s : QpState) → Moved qp.state s (changed s (start_threads a b qp))
unfolding start_threads dis_qp_init
start_threads-Moved a b qp s = ground arith

-- Modifying a queue pair either returns 0, and then its state is the one that was asked for, or as it
-- was where none was asked for, or it returns -42 and the state stays as it was.
pub dis_modify_qp_lem :
    (a b : ℕ) (attr : QpAttr) (qp : DisQp)
    → Moved qp.state
        (if attr.has_state then attr.qp_state else qp.state)
        (dis_modify_qp a b attr qp)
unfolding dis_modify_qp change_state
dis_modify_qp_lem a b attr qp = ground (
  arith,
  start_threads-Moved a b (set_mtu attr (set_qpn attr qp)) attr.qp_state,
  set_same attr qp,
)

-- What a queue is after its thread was started.
pub record IsStarted (wq : DisWq) (qpn thread : ℕ) : Type 0 where
  pub initialized : wq.wq_state ≡ wq_initialized
  pub flag : wq.wq_flag ≡ wq_empty
  pub own : wq.l_qpn ≡ qpn
  pub peer : wq.r_qpn ≡ qpn
  pub runs : wq.thread ≡ thread

abbrev running : ℕ → DisWq → DisWq
running a wq = record wq { wq_state = wq_initialized; wq_flag = wq_empty; thread = suc a }

init_alive :
    (a : ℕ) (wq : DisWq) → wq.wq_state ≢ wq_exited → dis_qp_init (suc a) wq ≡ (done, running a wq)
unfolding dis_qp_init
init_alive a wq alive = ground arith

start_alive :
    (a b : ℕ) (qp : DisQp)
    → qp.rq.wq_state ≢ wq_exited
    → qp.sq.wq_state ≢ wq_exited
    → start_threads (suc a) (suc b) qp
      ≡ (done, record qp { rq = running a qp.rq; sq = running b qp.sq })
unfolding start_threads
start_alive a b qp rq_alive sq_alive =
    rw (init_alive a qp.rq rq_alive, init_alive b qp.sq sq_alive, start_threads)
      (ap₂ (λ (x y : Ret × DisWq). (done, record qp { rq = x.1; sq = y.1 }))
        (init_alive a qp.rq rq_alive) (init_alive b qp.sq sq_alive))

-- The attributes of the change to RTR, with a destination.
record IsAddressed (qp qp' : DisQp) : Type 0 where
  same_rq : qp'.rq.wq_state ≡ qp.rq.wq_state
  same_sq : qp'.sq.wq_state ≡ qp.sq.wq_state
  qp_peer : qp'.r_qpn ≡ qp.l_qpn
  rq_own : qp'.rq.l_qpn ≡ qp.l_qpn
  rq_peer : qp'.rq.r_qpn ≡ qp.l_qpn
  sq_own : qp'.sq.l_qpn ≡ qp.l_qpn
  sq_peer : qp'.sq.r_qpn ≡ qp.l_qpn

addressed :
    (attr : QpAttr) (qp : DisQp)
    → attr.has_dest_qpn ≡ true
    → IsAddressed qp (set_mtu attr (set_qpn attr qp))
unfolding set_mtu set_qpn
addressed attr qp dest = record {
  same_rq = ground arith;
  same_sq = ground arith;
  qp_peer = ground arith;
  rq_own = ground arith;
  rq_peer = ground arith;
  sq_own = ground arith;
  sq_peer = ground arith;
}

modify_rtr :
    (a b : ℕ) (attr : QpAttr) (qp : DisQp)
    → attr.has_state ≡ true
    → attr.qp_state ≡ qps_rtr
    → dis_modify_qp a b attr qp
      ≡ changed qps_rtr (start_threads a b (set_mtu attr (set_qpn attr qp)))
unfolding dis_modify_qp change_state
modify_rtr a b attr qp asked rtr = ground (arith, asked, rtr)

-- Let a queue pair whose threads have not exited be moved to RTR with a destination, and let both
-- threads be created. Then 0 is returned, the pair is in RTR, and both queues are initialized with
-- no request flagged. The pair and both queues name the pair's own number as their peer's, whatever
-- destination was given.
pub modify_to_rtr :
    (a b : ℕ) (attr : QpAttr) (qp : DisQp)
    → attr.has_state ≡ true
    → attr.qp_state ≡ qps_rtr
    → attr.has_dest_qpn ≡ true
    → qp.rq.wq_state ≢ wq_exited
    → qp.sq.wq_state ≢ wq_exited
    → let (ret, qp') = dis_modify_qp (suc a) (suc b) attr qp in
      (ret ≡ done)
      × (qp'.state ≡ qps_rtr)
      × (qp'.r_qpn ≡ qp.l_qpn)
      × IsStarted qp'.rq qp.l_qpn (suc a)
      × IsStarted qp'.sq qp.l_qpn (suc b)
modify_to_rtr a b attr qp asked rtr dest rq_alive sq_alive =
    let qp' = set_mtu attr (set_qpn attr qp) in
    let ok = addressed attr qp dest in
    let started =
      start_alive a b qp' (λ e. rq_alive (sym ok.same_rq ∙ e))
        (λ e. sq_alive (sym ok.same_sq ∙ e)) in
    rw (modify_rtr (suc a) (suc b) attr qp asked rtr, started)
      (
        refl,
        refl,
        ok.qp_peer,
        record { initialized = refl; flag = refl; own = ok.rq_own; peer = ok.rq_peer; runs = refl },
        record { initialized = refl; flag = refl; own = ok.sq_own; peer = ok.sq_peer; runs = refl },
      )

-- ===== src/Qp/Keeps.antt =====
-- What the calls on a queue pair leave alone.
use dis_kverbs.Common.{
  ℕ, ◌≡◌, refl, ap, subst, ◌∙◌, arith, Option, none, some, List, [], ◌∷◌, length,
}
use mathlib.Core.Option.{some-injective}
use dis_kverbs.Kernel.{CircBuf}
use dis_kverbs.Verbs.{Ret, done, fail, Iovec, WcOpcode, wc_send, wc_recv, DisWq}
use dis_kverbs.Worker.Tail.{same_ring}
use dis_kverbs.Post.Build.{IsWq}
use dis_kverbs.Post.{IbWr, Mem, post_one, dis_qp_post_one_sqe, dis_qp_post_one_rqe}
use dis_kverbs.Post.Shape.{post_one-IsPosted, IsPosted-IsWq}
use dis_kverbs.Qp.{
  DisQp, QpAttr, dis_qp_init, dis_qp_notify, set_qpn, set_mtu, start_threads, change_state,
  dis_modify_qp, post_all,
}
use dis_kverbs.Qp.{with_sq, with_rq, dis_post_send, dis_post_recv}
use dis_kverbs.Qp.Notify.{notified}

-- A queue stays with its pair, and in order, its slots' arrays included.
pub record IsKept (wq wq' : DisWq) : Type 0 where
  pub same_owner : wq'.ibqp ≡ wq.ibqp
  pub ordered : IsWq wq → IsWq wq'

pub IsKept-refl : (wq : DisWq) → IsKept wq wq
IsKept-refl wq = record { same_owner = refl; ordered = λ v. v }

IsKept-trans : {a b d : DisWq} → IsKept a b → IsKept b d → IsKept a d
IsKept-trans k l = record {
  same_owner = l.same_owner ∙ k.same_owner;
  ordered = λ v. l.ordered (k.ordered v);
}

-- The fields of the ring, and the pair.
record IsSameRing (wq wq' : DisWq) : Type 0 where
  owner : wq'.ibqp ≡ wq.ibqp
  head : wq'.head ≡ wq.head
  tail : wq'.tail ≡ wq.tail
  size : wq'.wqe_max ≡ wq.wqe_max
  buffer : wq'.buf ≡ wq.buf

same-IsKept : {wq wq' : DisWq} → IsSameRing wq wq' → IsKept wq wq'
same-IsKept {wq} {wq'} s = record {
  same_owner = s.owner;
  ordered = λ v. record {
    ring =
        (same_ring wq wq' s.head s.tail s.size (ap length s.buffer)
          (record { ring = v.ring })).ring;
    arrays = rw (s.size, s.buffer) v.arrays;
  };
}

init-IsSameRing : (a : ℕ) (wq : DisWq) → IsSameRing wq (dis_qp_init a wq).1
unfolding dis_qp_init
init-IsSameRing a wq = record {
  owner = ground arith;
  head = ground arith;
  tail = ground arith;
  size = ground arith;
  buffer = ground arith;
}

pub notify-IsKept : (wq : DisWq) → IsKept wq (dis_qp_notify wq).1
notify-IsKept wq = same-IsKept (record {
  owner = ap (λ (w : DisWq). w.ibqp) (notified wq);
  head = ap (λ (w : DisWq). w.head) (notified wq);
  tail = ap (λ (w : DisWq). w.tail) (notified wq);
  size = ap (λ (w : DisWq). w.wqe_max) (notified wq);
  buffer = ap (λ (w : DisWq). w.buf) (notified wq);
})

-- A pair keeps its number, and its queues stay.
pub record IsKeptPair (qp qp' : DisQp) : Type 0 where
  pub same_number : qp'.qp_num ≡ qp.qp_num
  pub sq_kept : IsKept qp.sq qp'.sq
  pub rq_kept : IsKept qp.rq qp'.rq

modified_sq :
    (a b : ℕ) (attr : QpAttr) (qp : DisQp) → IsSameRing qp.sq (dis_modify_qp a b attr qp).1.sq
unfolding dis_modify_qp change_state start_threads set_mtu set_qpn
modified_sq a b attr qp =
    let s = init-IsSameRing b (set_mtu attr (set_qpn attr qp)).sq in
    record {
      owner = ground (arith, s.owner);
      head = ground (arith, s.head);
      tail = ground (arith, s.tail);
      size = ground (arith, s.size);
      buffer = ground (arith, s.buffer);
    }

modified_rq :
    (a b : ℕ) (attr : QpAttr) (qp : DisQp) → IsSameRing qp.rq (dis_modify_qp a b attr qp).1.rq
unfolding dis_modify_qp change_state start_threads set_mtu set_qpn
modified_rq a b attr qp =
    let s = init-IsSameRing a (set_mtu attr (set_qpn attr qp)).rq in
    record {
      owner = ground (arith, s.owner);
      head = ground (arith, s.head);
      tail = ground (arith, s.tail);
      size = ground (arith, s.size);
      buffer = ground (arith, s.buffer);
    }

pub modify-IsKeptPair :
    (a b : ℕ) (attr : QpAttr) (qp : DisQp) → IsKeptPair qp (dis_modify_qp a b attr qp).1
unfolding dis_modify_qp change_state start_threads set_mtu set_qpn
modify-IsKeptPair a b attr qp = record {
  same_number = ground arith;
  sq_kept = same-IsKept (modified_sq a b attr qp);
  rq_kept = same-IsKept (modified_rq a b attr qp);
}

module _ (c : CircBuf) (kmalloc : ℕ → Option (ℕ × List Iovec)) (mem : Mem) where
  pub posted-IsKept :
      (opcode : WcOpcode) (wq : DisWq) (wr : IbWr) (ret : Ret) (wq' : DisWq)
      → post_one c kmalloc mem opcode wq wr ≡ some (ret, wq')
      → IsKept wq wq'
  posted-IsKept opcode wq wr ret wq' e =
      let q = post_one-IsPosted c kmalloc mem opcode wq wr ret wq' e in
      record { same_owner = ap (λ (w : DisWq). w.ibqp) q.inert; ordered = IsPosted-IsWq q }

  all_posted-IsKept :
      (opcode : WcOpcode) (wrs : List IbWr) (wq : DisWq) {ret : Ret} {wq' : DisWq}
      → post_all (post_one c kmalloc mem opcode) wq wrs ≡ some (ret, wq')
      → IsKept wq wq'
  unfolding post_all
  all_posted-IsKept opcode [] wq e =
      subst (λ (q : Ret × DisWq). IsKept wq q.1) (some-injective _ _ e) (IsKept-refl wq)
  all_posted-IsKept opcode (wr ∷ wrs) wq {ret} {wq'} e =
      first (λ w f. all_posted-IsKept opcode wrs w {ret = ret} {wq' = wq'} f)
        (post_one c kmalloc mem opcode wq wr) refl e
    where
      first :
          ((w : DisWq)
            → post_all (post_one c kmalloc mem opcode) w wrs ≡ some (ret, wq')
            → IsKept w wq')
          → (o : Option (Ret × DisWq)) → post_one c kmalloc mem opcode wq wr ≡ o
          → (elim o [
            | none ↦ none
            | some (fail _, w) ↦ some (fail 42, w)
            | some (done, w) ↦ post_all (post_one c kmalloc mem opcode) (dis_qp_notify w).1 wrs
          ])
            ≡ some (ret, wq')
          → IsKept wq wq'
      first others none run e = cc
      first others (some (fail n, w)) run e =
          subst (λ (q : Ret × DisWq). IsKept wq q.1) (some-injective _ _ e)
            (posted-IsKept opcode wq wr (fail n) w run)
      first others (some (done, w)) run e =
          IsKept-trans (posted-IsKept opcode wq wr done w run)
            (IsKept-trans (notify-IsKept w) (others (dis_qp_notify w).1 e))

  sq-IsKeptPair :
      (qp : DisQp) (o : Option (Ret × DisWq)) {ret : Ret} {qp' : DisQp}
      → ((r : Ret) (wq : DisWq) → o ≡ some (r, wq) → IsKept qp.sq wq)
      → with_sq c kmalloc mem qp o ≡ some (ret, qp')
      → IsKeptPair qp qp'
  sq-IsKeptPair qp none keeps e = cc
  sq-IsKeptPair qp (some (r, wq)) keeps e =
      subst (λ (q : Ret × DisQp). IsKeptPair qp q.1) (some-injective _ _ e)
        (record { same_number = refl; sq_kept = keeps r wq refl; rq_kept = IsKept-refl qp.rq })

  rq-IsKeptPair :
      (qp : DisQp) (o : Option (Ret × DisWq)) {ret : Ret} {qp' : DisQp}
      → ((r : Ret) (wq : DisWq) → o ≡ some (r, wq) → IsKept qp.rq wq)
      → with_rq c kmalloc mem qp o ≡ some (ret, qp')
      → IsKeptPair qp qp'
  rq-IsKeptPair qp none keeps e = cc
  rq-IsKeptPair qp (some (r, wq)) keeps e =
      subst (λ (q : Ret × DisQp). IsKeptPair qp q.1) (some-injective _ _ e)
        (record { same_number = refl; sq_kept = IsKept-refl qp.sq; rq_kept = keeps r wq refl })

  pub send-IsKeptPair :
      (qp : DisQp) (wrs : List IbWr) {ret : Ret} {qp' : DisQp}
      → dis_post_send c kmalloc mem qp wrs ≡ some (ret, qp')
      → IsKeptPair qp qp'
  unfolding dis_post_send dis_qp_post_one_sqe
  send-IsKeptPair qp wrs e =
      sq-IsKeptPair qp _ (λ r wq f. all_posted-IsKept wc_send wrs qp.sq {ret = r} {wq' = wq} f) e

  pub recv-IsKeptPair :
      (qp : DisQp) (wrs : List IbWr) {ret : Ret} {qp' : DisQp}
      → dis_post_recv c kmalloc mem qp wrs ≡ some (ret, qp')
      → IsKeptPair qp qp'
  unfolding dis_post_recv dis_qp_post_one_rqe
  recv-IsKeptPair qp wrs e =
      rq-IsKeptPair qp _ (λ r wq f. all_posted-IsKept wc_recv wrs qp.rq {ret = r} {wq' = wq} f) e

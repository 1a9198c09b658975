-- ===== src/Worker/Complete.antt =====
-- Every entry that a worker takes becomes one completion.
use dis_kverbs.Common.{
  ℕ, ◌+◌, ◌-◌, ◌<◌, ◌≡◌, List, [], ◌∷◌, ◌++◌, arith, refl, ap, ◌∙◌, true, false, length, map, ◌==◌,
  ltb, lt→ltb, Bool, if◌then◌else◌,
}
use dis_kverbs.Kernel.{CircBuf}
use dis_kverbs.Verbs.{
  Ret, WcStatus, WcOpcode, DisWqe, DisCqe, DisCq, DisWqType, dis_sq, dis_rq, wc_success,
  wc_resp_timeout_err,
}
use dis_kverbs.Cq.{IbWc, cqe_of}
use dis_kverbs.Cq.Inv.{IsValid, used, contents, length-contents}
use dis_kverbs.Cq.Refine.{post_rqe-eq-post_sqe, post_refines}
use dis_kverbs.Cq.Queue
use dis_kverbs.SciIf.{SciReply, answer, sci_ok, sci_failed}
use dis_kverbs.Worker.{
  Consumed, complete_rqe, complete_sqe, receive_all, dis_wq_consume_one_rqe, dis_wq_consume_one_sqe,
  consume_one, sub32,
}

abbrev pub cqe_ids : List DisCqe → List ℕ
cqe_ids = map (λ (e : DisCqe). e.wr_id)

abbrev pub wqe_ids : List DisWqe → List ℕ
wqe_ids = map (λ (e : DisWqe). e.wr_id)

-- What tells a request: its id, its kind and its queue pair.
pub record Label : Type 0 where
  pub wr_id : ℕ
  pub opcode : WcOpcode
  pub qp : ℕ

abbrev pub wqe_label : DisWqe → Label
wqe_label wqe = record { wr_id = wqe.wr_id; opcode = wqe.opcode; qp = wqe.ibqp }

abbrev pub cqe_label : DisCqe → Label
cqe_label cqe = record { wr_id = cqe.wr_id; opcode = cqe.opcode; qp = cqe.ibqp }

abbrev pub wc_label : IbWc → Label
wc_label wc = record { wr_id = wc.wr_id; opcode = wc.opcode; qp = wc.qp }

module _ (c : CircBuf) where
  -- The consumption posted one completion, of an entry with the same label, and left the address and the
  -- elements of its own arrays.
  pub record IsCompleted (cq : DisCq) (wqe : DisWqe) (one : Consumed) : Type 0 where
    pub entry : DisWqe
    pub verdict : WcStatus
    pub rest : List SciReply
    pub posted_once : one ≡ complete_sqe c cq entry verdict rest
    pub same_label : wqe_label entry ≡ wqe_label wqe
    pub same_map : entry.page_map_dynamic ≡ wqe.page_map_dynamic
    pub same_array : entry.page_map_static ≡ wqe.page_map_static

  complete_rqe-IsCompleted :
      (cq : DisCq) (wqe w : DisWqe) (s : WcStatus) (rs : List SciReply)
      → wqe_label w ≡ wqe_label wqe
      → w.page_map_dynamic ≡ wqe.page_map_dynamic
      → w.page_map_static ≡ wqe.page_map_static
      → IsCompleted cq wqe (complete_rqe c cq w s rs)
  complete_rqe-IsCompleted cq wqe w s rs e f g = record {
    entry = w;
    verdict = s;
    rest = rs;
    posted_once =
        ap (λ (p : Ret × DisCq). record { wc_status = s; cq = p.1; wqe = w; replies = rs })
          (post_rqe-eq-post_sqe c cq w s);
    same_label = e;
    same_map = f;
    same_array = g;
  }

  either-IsCompleted :
      {cq : DisCq} {wqe : DisWqe} (b : Bool) {x y : Consumed}
      → IsCompleted cq wqe x
      → IsCompleted cq wqe y
      → IsCompleted cq wqe (if b then x else y)
  either-IsCompleted true p q = p
  either-IsCompleted false p q = q

  receive_all-IsCompleted :
      (total left : ℕ) (cq : DisCq) (wqe w : DisWqe) (rs : List SciReply)
      → wqe_label w ≡ wqe_label wqe
      → w.page_map_dynamic ≡ wqe.page_map_dynamic
      → w.page_map_static ≡ wqe.page_map_static
      → IsCompleted cq wqe (receive_all c total left cq w rs)
  unfolding receive_all
  receive_all-IsCompleted total left cq wqe w [] e f h =
      complete_rqe-IsCompleted cq wqe w wc_resp_timeout_err [] e f h
  receive_all-IsCompleted total left cq wqe w (answer sci_ok n ∷ rs) e g h =
      let k = sub32 left n in
      either-IsCompleted (k == 0)
        (complete_rqe-IsCompleted cq wqe (record w { byte_len = total }) wc_success rs e g h)
        (receive_all-IsCompleted total k cq wqe (record w { byte_len = k }) rs e g h)
  receive_all-IsCompleted total left cq wqe w (answer (sci_failed f) n ∷ rs) e g h =
      receive_all-IsCompleted total left cq wqe (record w { byte_len = left }) rs e g h

  consume_sqe-IsCompleted :
      (cq : DisCq) (wqe : DisWqe) (rs : List SciReply)
      → IsCompleted cq wqe (dis_wq_consume_one_sqe c cq wqe rs)
  unfolding dis_wq_consume_one_sqe
  consume_sqe-IsCompleted cq wqe [] = record {
    entry = wqe;
    verdict = wc_resp_timeout_err;
    rest = [];
    posted_once = refl;
    same_label = refl;
    same_map = refl;
    same_array = refl;
  }
  consume_sqe-IsCompleted cq wqe (answer sci_ok n ∷ rs) = record {
    entry = wqe;
    verdict = wc_success;
    rest = rs;
    posted_once = refl;
    same_label = refl;
    same_map = refl;
    same_array = refl;
  }
  consume_sqe-IsCompleted cq wqe (answer (sci_failed f) n ∷ rs) = consume_sqe-IsCompleted cq wqe rs

  pub consume_one-IsCompleted :
      (type : DisWqType) (cq : DisCq) (wqe : DisWqe) (rs : List SciReply)
      → IsCompleted cq wqe (consume_one c type cq wqe rs)
  unfolding consume_one dis_wq_consume_one_rqe
  consume_one-IsCompleted dis_rq cq wqe rs =
      receive_all-IsCompleted wqe.byte_len wqe.byte_len cq wqe wqe rs refl refl refl
  consume_one-IsCompleted dis_sq cq wqe rs = consume_sqe-IsCompleted cq wqe rs

  -- With room in the completion queue, that completion joins the others.
  pub complete_sqe-contents :
      {cq : DisCq} (wqe : DisWqe) (s : WcStatus) (rs : List SciReply)
      → IsValid cq
      → used cq + 1 < cq.cqe_max
      → let cq' = (complete_sqe c cq wqe s rs).cq in
        (contents cq' ≡ contents cq ++ cqe_of wqe s ∷ []) × IsValid cq' × (cq'.cqe_max ≡ cq.cqe_max)
  unfolding Queue.push
  complete_sqe-contents {cq} wqe s rs v room =
      let (same, v', size) = post_refines c wqe s v in
      let spare : ltb (length (contents cq)) (cq.cqe_max - 1) ≡ true =
        rw (length-contents cq) (lt→ltb (used cq) (cq.cqe_max - 1) (omega (arith, room))) in
      (ap (λ (p : Ret × List DisCqe). p.1) same ∙ rw spare refl, v', size)

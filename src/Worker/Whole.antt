-- ===== src/Worker/Whole.antt =====
-- A run in which the message library transfers every entry whole, at the first attempt.
use dis_kverbs.Common.{
  ◌+◌, ◌<◌, ◌≡◌, refl, ap, sym, ◌∙◌, List, [], ◌∷◌, ◌++◌, arith, length, append_assoc, append-nil,
  map,
}
use dis_kverbs.Kernel.{CircBuf}
use dis_kverbs.Verbs.{done, wc_success, DisWqe, DisCq, DisWqType}
use dis_kverbs.Cq.{cqe_of}
use dis_kverbs.Cq.Inv.{IsValid, used, contents}
use dis_kverbs.SciIf.{SciReply, answer, sci_ok}
use dis_kverbs.Worker.{complete_sqe}
use dis_kverbs.Worker.Complete.{complete_sqe-contents}
use dis_kverbs.Worker.Drain.{Outcome, drain, drain_more, drain_empty}
use dis_kverbs.Worker.Order.{used-added}
use dis_kverbs.Worker.Success.{consume_one_success}

-- The message library's answers when each entry is transferred whole at the first attempt.
abbrev pub whole : DisWqe → SciReply
whole wqe = answer sci_ok wqe.byte_len

module _ (c : CircBuf) where
  -- A run that completed these entries with success, behind the completions that were there.
  pub record IsWhole (cq : DisCq) (wqes : List DisWqe) (o : Outcome) : Type 0 where
    pub finished : o.ret ≡ done
    pub empty : o.waiting ≡ []
    pub completed : contents o.cq ≡ contents cq ++ map (λ w. cqe_of w wc_success) wqes
    pub valid : IsValid o.cq

  pub drain-IsWhole :
      (type : DisWqType) {cq : DisCq} (wqes : List DisWqe) (r : SciReply) (rs : List SciReply)
      → IsValid cq
      → used cq + length wqes < cq.cqe_max
      → IsWhole cq wqes (drain c type cq wqes (map whole wqes ++ r ∷ rs))
  drain-IsWhole type {cq} [] r rs v room = rw (drain_empty c type cq r rs) (record {
    finished = refl;
    empty = refl;
    completed = sym (append-nil (contents cq));
    valid = v;
  })
  drain-IsWhole type {cq} (wqe ∷ wqes) r rs v room =
      let later = map whole wqes ++ r ∷ rs in
      let one = complete_sqe c cq wqe wc_success later in
      let (added, v', size) = complete_sqe-contents c wqe wc_success later v (omega arith) in
      let rest =
        drain-IsWhole type {cq = one.cq} wqes r rs v'
          (omega (arith, size, used-added c cq one.cq (cqe_of wqe wc_success) added)) in
      let this = consume_one_success c type cq wqe later in
      rw (drain_more c type cq wqe wqes (whole wqe) later, this)
        (record {
          finished = rest.finished;
          empty = rest.empty;
          completed =
              rest.completed
              ∙ ap (λ l. l ++ map (λ w. cqe_of w wc_success) wqes) added
              ∙ append_assoc (contents cq) (cqe_of wqe wc_success ∷ []) _;
          valid = rest.valid;
        })

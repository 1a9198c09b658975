-- ===== src/Worker/Receive.antt =====
-- One entry of a receive queue: partial receives add up.
use dis_kverbs.Common.{
  ℕ, ◌+◌, ◌-◌, ◌^◌, ◌<◌, ◌≡◌, List, [], ◌∷◌, ◌++◌, arith, refl, ap, ◌∙◌, ◌==◌, false, sym,
  append-nil,
}
use dis_kverbs.Kernel.{CircBuf}
use dis_kverbs.Verbs.{DisWqe, DisCq, wc_success, wc_resp_timeout_err}
use dis_kverbs.SciIf.{SciReply, SciFailure, answer, sci_ok, sci_failed}
use dis_kverbs.Worker.{complete_rqe, receive_all, dis_wq_consume_one_rqe, sub32}

-- The bytes that the attempts received.
abbrev pub received : List SciReply → ℕ
received [] = 0
received (answer sci_ok n ∷ rs) = n + received rs
received (answer (sci_failed _) n ∷ rs) = received rs

module _ (c : CircBuf) where
  abbrev sized : DisWqe → ℕ → DisWqe
  sized wqe n = record wqe { byte_len = n }

  receive_more :
      (total left : ℕ) (cq : DisCq) (wqe : DisWqe) (n : ℕ) (rs : List SciReply)
      → n < left
      → left < 2 ^ 32
      → receive_all c total left cq wqe (answer sci_ok n ∷ rs)
        ≡ receive_all c total (left - n) cq (sized wqe (left - n)) rs
  unfolding receive_all
  receive_more total left cq wqe n rs short fits =
      let rest : sub32 left n ≡ left - n = omega arith in
      let open_ : (left - n == 0) ≡ false = ground arith in rw (rest, open_)

  receive_last :
      (total left : ℕ) (cq : DisCq) (wqe : DisWqe) (rs : List SciReply)
      → left < 2 ^ 32
      → receive_all c total left cq wqe (answer sci_ok left ∷ rs)
        ≡ complete_rqe c cq (sized wqe total) wc_success rs
  unfolding receive_all
  receive_last total left cq wqe rs fits = let rest : sub32 left left ≡ 0 = omega arith in rw rest

  receive_failed :
      (total left : ℕ) (cq : DisCq) (wqe : DisWqe) (e : SciFailure) (n : ℕ) (rs : List SciReply)
      → receive_all c total left cq wqe (answer (sci_failed e) n ∷ rs)
        ≡ receive_all c total left cq (sized wqe left) rs
  unfolding receive_all
  receive_failed total left cq wqe e n rs = refl

  receive_stopped :
      (total left : ℕ) (cq : DisCq) (wqe : DisWqe)
      → receive_all c total left cq wqe [] ≡ complete_rqe c cq wqe wc_resp_timeout_err []
  unfolding receive_all
  receive_stopped total left cq wqe = refl

  receive_run :
      (total left : ℕ) (cq : DisCq) (wqe : DisWqe) (pre rest : List SciReply)
      → received pre < left
      → left < 2 ^ 32
      → receive_all c total left cq (sized wqe left) (pre ++ rest)
        ≡ receive_all c total (left - received pre) cq (sized wqe (left - received pre)) rest
  receive_run total left cq wqe [] rest short fits =
      let none_yet : left ≡ left - 0 = omega arith in
      ap (λ k. receive_all c total k cq (sized wqe k) rest) none_yet
  receive_run total left cq wqe (answer sci_ok n ∷ pre) rest short fits =
      let sum : left - n - received pre ≡ left - (n + received pre) = omega arith in
      receive_more total left cq (sized wqe left) n (pre ++ rest) (omega arith) fits
      ∙ receive_run total (left - n) cq wqe pre rest (omega arith) (omega arith)
      ∙ ap (λ k. receive_all c total k cq (sized wqe k) rest) sum
  receive_run total left cq wqe (answer (sci_failed e) n ∷ pre) rest short fits =
      receive_failed total left cq (sized wqe left) e n (pre ++ rest)
      ∙ receive_run total left cq wqe pre rest short fits

  -- Consuming an entry of a receive queue, whose length fits 32 bits. While the attempts have received
  -- fewer bytes than the entry's length, none is completed: told to stop there, the worker posts one
  -- completion, of the time-out status and with the bytes left as its length. The attempt that
  -- receives the rest ends the loop, whatever failures came between: the worker posts one completion,
  -- of success and with the entry's length, and makes no further attempt.
  pub dis_wq_consume_one_rqe_lem :
      (cq : DisCq) (wqe : DisWqe) (pre post : List SciReply) (n : ℕ)
      → wqe.byte_len < 2 ^ 32
      → received pre < wqe.byte_len
      → received pre + n ≡ wqe.byte_len
      → (dis_wq_consume_one_rqe c cq wqe pre
          ≡ complete_rqe c cq
              (record wqe { byte_len = wqe.byte_len - received pre })
              wc_resp_timeout_err
              [])
        × (dis_wq_consume_one_rqe c cq wqe (pre ++ answer sci_ok n ∷ post)
            ≡ complete_rqe c cq wqe wc_success post)
  unfolding dis_wq_consume_one_rqe
  dis_wq_consume_one_rqe_lem cq wqe pre post n fits short total =
      let all = wqe.byte_len in
      let left = all - received pre in
      let last : n ≡ left = omega (arith, total) in
      (
        ap (receive_all c all all cq wqe) (sym (append-nil pre))
            ∙ receive_run all all cq wqe pre [] short fits
            ∙ receive_stopped all left cq (sized wqe left),
        receive_run all all cq wqe pre (answer sci_ok n ∷ post) short fits
            ∙ ap (λ k. receive_all c all left cq (sized wqe left) (answer sci_ok k ∷ post)) last
            ∙ receive_last all left cq (sized wqe left) post (omega arith),
      )

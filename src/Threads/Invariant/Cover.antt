-- ===== src/Threads/Invariant/Cover.antt =====
-- Each step of a thread keeps every unfinished cell covered by a thread.
use sigmax.Base.{ℕ, ◌+◌, ◌<◌, ◌≡◌, ◌≢◌, ◌^◌, ◌⊎◌, refl, inl, inr, Option, none, some, update, arith}
use native.Mathlib.Decide.{ℕ_discrete}
use sigmax.MpscQueue.Words.{add64}
use sigmax.MpscQueue.Index.{index, index-add}
use sigmax.Threads.{
  Pc, push_claim, push_write, push_publish, push_tally, pop_claim, pop_read, pop_release, pop_tally,
}
use sigmax.Threads.Invariant.Defs.{Local, Inv, Covered, writes, reads}

module _ {A : Type 0} {C : ℕ} {slots : ℕ → A} {sequence : ℕ → ℕ} {head tail : ℕ} {accepted : ℕ → A}
    {delivered : ℕ → Option A} {lap : ℕ → ℕ} {pc : ℕ → Pc A}
    (inv : Inv C slots sequence head tail accepted delivered lap pc)
    (cov : Covered C sequence head tail accepted delivered lap pc) (i : ℕ) where
  open inv use {several, small, ordered, home, phase, claimed, taken, kept}
  open cov use {writer_of, reader_of, read_all}

  -- A thread that covers something stays where it is while another one moves.
  other_writer :
      (p : Pc A) (r : ℕ)
      → writes (pc i) ≢ some r
      → (j : ℕ) × (writes (pc j) ≡ some r)
      → (j : ℕ) × (writes (update pc i p j) ≡ some r)
  other_writer p r ne (j, w) = (j, ground arith)

  other_reader :
      (p : Pc A) (r : ℕ)
      → reads (pc i) ≢ some r
      → (j : ℕ) × (reads (pc j) ≡ some r)
      → (j : ℕ) × (reads (update pc i p j) ≡ some r)
  other_reader p r ne (j, w) = (j, ground arith)

  other_read :
      {d d' : Option A} {a a' : A} (p : Pc A) (r : ℕ)
      → pc i ≢ pop_read r
      → d' ≡ d
      → a' ≡ a
      → (d ≡ some a) ⊎ ((j : ℕ) × (pc j ≡ pop_read r))
      → (d' ≡ some a') ⊎ ((j : ℕ) × (update pc i p j ≡ pop_read r))
  other_read p r ne e f (inl h) = inl (ground arith)
  other_read p r ne e f (inr (j, w)) = inr (j, ground arith)

  pub stay-Covered :
      (old p : Pc A)
      → pc i ≡ old
      → writes old ≡ none
      → reads old ≡ none
      → Covered C sequence head tail accepted delivered lap (update pc i p)
  stay-Covered old p here w r = record {
    writer_of = λ q e lt. other_writer p _ (ground arith) (writer_of q e lt);
    reader_of = λ q e lt. other_reader p _ (ground arith) (reader_of q e lt);
    read_all = λ q lt. other_read p q (ground arith) refl refl (read_all q lt);
  }

  module _ (a : A) (pos : ℕ) where
    pub push_claim-Covered :
        pc i ≡ push_claim a pos
        → head ≡ pos
        → head + C + 1 < 2 ^ 63
        → Covered C sequence
            (add64 pos 1)
            tail
            (update accepted pos a)
            delivered
            lap
            (update pc i (push_write a pos))
    push_claim-Covered here e room = record {
      writer_of = λ q f lt. elim (ℕ_discrete (lap (index C q)) pos) [
        | yes same ↦ (i, ground arith)
        | no ne ↦ other_writer _ _ (ground arith) (writer_of q f (omega arith))
      ];
      reader_of = λ q f lt. other_reader _ _ (ground arith) (reader_of q f lt);
      read_all = λ q lt. other_read _ q (ground arith) refl (ground arith) (read_all q lt);
    }

    pub push_write-Covered :
        pc i ≡ push_write a pos
        → Covered C sequence head tail accepted delivered lap (update pc i (push_publish a pos))
    push_write-Covered here = record {
      writer_of = λ q f lt. let (j, w) = writer_of q f lt in (j, ground arith);
      reader_of = λ q f lt. other_reader _ _ (ground arith) (reader_of q f lt);
      read_all = λ q lt. other_read _ q (ground arith) refl refl (read_all q lt);
    }

    pub push_publish-Covered :
        pc i ≡ push_publish a pos
        → Local C slots sequence head tail accepted delivered lap (push_publish a pos)
        → Covered C
            (update sequence (index C pos) (add64 pos 1))
            head
            tail
            accepted
            delivered
            lap
            (update pc i push_tally)
    push_publish-Covered here l = record {
      writer_of =
          λ q f lt. other_writer _ _ (ground (arith, home q)) (writer_of q (ground arith) lt);
      reader_of =
          λ q f lt. other_reader _ _ (ground arith) (reader_of q (ground (arith, taken pos)) lt);
      read_all = λ q lt. other_read _ q (ground arith) refl refl (read_all q lt);
    }

    pub pop_release-Covered :
        pc i ≡ pop_release pos a
        → Local C slots sequence head tail accepted delivered lap (pop_release pos a)
        → Covered C
            (update sequence (index C pos) (add64 pos C))
            head
            tail
            accepted
            delivered
            (update lap (index C pos) (pos + C))
            (update pc i (pop_tally a))
    pop_release-Covered here l = record {
      writer_of = λ q f lt. elim (ℕ_discrete (index C pos) (index C q)) [
        | yes same ↦ absurd (ground (arith, claimed (pos + C), index-add C pos))
        | no ne ↦ let (j, w) = writer_of q (ground arith) (ground arith) in (j, ground arith)
      ];
      reader_of = λ q f lt. elim (ℕ_discrete (index C pos) (index C q)) [
        | yes same ↦ absurd (ground arith)
        | no ne ↦
            let (j, w) = reader_of q (ground arith) (ground arith) in (j, ground (arith, home q))
      ];
      read_all = λ q lt. other_read _ q (ground arith) refl refl (read_all q lt);
    }

  module _ (pos : ℕ) where
    pub pop_claim-Covered :
        pc i ≡ pop_claim pos
        → tail ≡ pos
        → head + C + 1 < 2 ^ 63
        → Covered C sequence head (add64 pos 1) accepted delivered lap (update pc i (pop_read pos))
    pop_claim-Covered here e room = record {
      writer_of = λ q f lt. other_writer _ _ (ground arith) (writer_of q f lt);
      reader_of = λ q f lt. elim (ℕ_discrete (lap (index C q)) pos) [
        | yes same ↦ (i, ground arith)
        | no ne ↦ other_reader _ _ (ground arith) (reader_of q f (omega arith))
      ];
      read_all = λ q lt. elim (ℕ_discrete q pos) [
        | yes same ↦ inr (i, ground arith)
        | no ne ↦ other_read _ q (ground arith) refl refl (read_all q (omega arith))
      ];
    }

    pub pop_read-Covered :
        pc i ≡ pop_read pos
        → Local C slots sequence head tail accepted delivered lap (pop_read pos)
        → Covered C sequence head tail accepted
            (update delivered pos (some (slots (index C pos))))
            lap
            (update pc i (pop_release pos (slots (index C pos))))
    pop_read-Covered here l = record {
      writer_of = λ q f lt. other_writer _ _ (ground arith) (writer_of q f lt);
      reader_of = λ q f lt. let (j, w) = reader_of q f lt in (j, ground arith);
      read_all = λ q lt. elim (ℕ_discrete q pos) [
        | yes same ↦ inl (ground (arith, kept pos))
        | no ne ↦ other_read _ q (ground arith) (ground arith) refl (read_all q lt)
      ];
    }

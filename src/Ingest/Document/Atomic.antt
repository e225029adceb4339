-- ===== src/Ingest/Document/Atomic.antt =====
-- src/ingest.cpp: the transaction that registers a document.
use chimera_ape.Base.{
  ℕ, ◌+◌, ◌≡◌, refl, ◌∙◌, ap, Bool, not, ◌&&◌, Option, List, [], ◌∷◌, ◌++◌, leb, if◌then◌else◌,
  Bytes, is_empty, take, length, Bool-cases, inl, inr,
}
use chimera_ape.Hash.{Hashes}
use chimera_ape.Manifest.{Manifest}
use chimera_ape.Manifest.Ops.Valid.{Write, upsert, insert, mark_superseded}
use chimera_ape.Manifest.Transaction.{
  connected, close, run_calls, run_writes, transaction, close-transaction,
}
use chimera_ape.Ingest.{DocWork}
use chimera_ape.Ingest.Document.{Services, register}

module _ {F D : Type 0} (files : Bytes → Option Bytes) (h : Hashes) (s : Services F D) where
  -- The calls between `m.begin()` and `m.commit()`.
  unfoldable pub register_writes : DocWork → List Write
  register_writes w =
      insert s.now w.doc_id w.size w.mime ∷ upsert w.rel_path w.mtime w.size w.doc_id ∷ []
      ++ (if not (is_empty w.superseded_old)
          then mark_superseded w.superseded_old w.doc_id ∷ []
          else [])

  register_transaction-register :
      (w : DocWork) (m : Manifest) → run_writes (register_writes w) m ≡ register files h s w m
  unfolding register register_writes
  register_transaction-register w m = elim (Bool-cases (not (is_empty w.superseded_old))) [
    | inl old ↦ rw old refl
    | inr new ↦ rw new refl
  ]

  -- If the process ends after any number of the calls of that transaction, or one of them throws, the
  -- file has the manifest from before, or the registered document where the locks were free and the
  -- transaction was complete.
  pub close-register :
      (begins commits : Bool) (w : DocWork) (n : ℕ) (m : Manifest)
      → close (run_calls (take n (transaction begins commits (register_writes w))) (connected m))
        ≡ (if begins && (leb (length (register_writes w) + 2) n && commits)
            then register files h s w m
            else m)
  close-register begins commits w n m =
      close-transaction begins commits (register_writes w) n m
      ∙ ap (λ m'. if begins && (leb (length (register_writes w) + 2) n && commits) then m' else m)
          (register_transaction-register w m)

-- ===== src/Tests/Pipeline.antt =====
-- Runs of src/ingest.cpp with small services: a vector of a text is its length.
use chimera_ape.Base.{
  ℕ, ◌+◌, ◌≡◌, refl, true, false, ◌&&◌, leb, take, if◌then◌else◌, Option, none, some, List, [], ◌∷◌,
  map, Bytes, codes, bytes_eq, length, All, err, arith, ◌↔◌,
}
use chimera_ape.Chunk.{Chunk}
use chimera_ape.Manifest.{stage_number, vectors_written, committed, Manifest, empty_manifest}
use chimera_ape.Manifest.Ops.{stage_of, path_info}
use chimera_ape.Walk.{WalkEntry}
use chimera_ape.Ingest.{DocWork, WalkState, start_walk}
use chimera_ape.Ingest.Visit.{has_reached, visit_all}
use chimera_ape.Ingest.Visit.NoOp.{IsSettled, visit_all-IsSettled}
use chimera_ape.Ingest.Visit.Plan.{IsPlan, visit_all-IsPlan}
use chimera_ape.Ingest.Document.{Services, RunState, embed_all, register}
use chimera_ape.Ingest.Document.Atomic.{register_writes, close-register}
use chimera_ape.Manifest.Transaction.{connected, close, run_calls, transaction}
use chimera_ape.Ingest.Document.Embed.{embed_all_lem}
use chimera_ape.Ingest.Process.{process, process_all, commit_work}
use chimera_ape.Ingest.Process.Commit.{is_work, promote, stage_of-commit_work}
use chimera_ape.Ingest.Process.Outcome.{Outcome}
use chimera_ape.Ingest.Process.Progress.{commit_work-process_all}
use chimera_ape.Ingest.Process.Turn.{process-Outcome}
use chimera_ape.Tests.Hashing.{sample_hashes}

abbrev pub vector_of : Bytes → List ℕ
vector_of t = length t ∷ []

abbrev pub services : Services ℕ ℕ
services = record {
  embed = λ ts. some (map vector_of ts);
  chat_media = λ prompt data_text mime. none;
  embed_media = λ data_text. none;
  chat = λ system user. none;
  json = record {
    parse = λ text. err [];
    not_string = λ v. [];
    not_number = λ v. [];
    not_found = λ k. [];
    not_object = λ v. [];
  };
  zero_confidence = 0;
  upsert = λ keys vecs. true;
  format_confidence = λ c. codes "0.50";
  now = codes "t";
  iso8601_now = codes "t";
}

-- Every file holds the same text.
abbrev pub files : Bytes → Option Bytes
files path = some (codes "one. two.")

abbrev entry : Bytes → WalkEntry
entry rel = record {
  rel_path = rel;
  abs_path = rel;
  size = 9;
  mtime = 5;
  mime = codes "text/plain";
  modality = codes "text";
}

abbrev copies : List WalkEntry
copies = entry (codes "a.txt") ∷ entry (codes "b.txt") ∷ []

abbrev walked : WalkState
walked = visit_all files sample_hashes false copies (start_walk empty_manifest)

-- The copy is not enqueued.
copies_run : length walked.work ≡ 1
unfolding visit_all
copies_run = refl

visit_all-IsPlan_example : IsPlan walked
visit_all-IsPlan_example = visit_all-IsPlan files sample_hashes false copies empty_manifest

abbrev settled : Manifest
settled = record empty_manifest {
  doc =
      record {
        docid = codes "d";
        bytes = 9;
        mime = codes "text/plain";
        stage = 6;
        ingested_at = [];
        superseded_by = none;
        vacuumed = false;
      }
      ∷ [];
  path = record { relpath = codes "a.txt"; mtime = 5; size = 9; docid = codes "d" } ∷ [];
}

settled-IsSettled : All (IsSettled settled) (entry (codes "a.txt") ∷ [])
unfolding path_info stage_of bytes_eq
settled-IsSettled = (
  record {
    known = record { mtime = 5; size = 9; doc_id = codes "d" };
    found = refl;
    same_time = refl;
    same_size = refl;
    stage = 6;
    reached = refl;
    through = omega arith;
  },
  tt,
)

visit_all-IsSettled_example : All (IsSettled settled) (entry (codes "a.txt") ∷ []) ↔ (
    (files : Bytes → Option Bytes)
    → visit_all files sample_hashes false (entry (codes "a.txt") ∷ []) (start_walk settled)
      ≡ record (start_walk settled) { n_skipped = 0 + 1 })
visit_all-IsSettled_example =
    visit_all-IsSettled sample_hashes false (entry (codes "a.txt") ∷ []) (start_walk settled)

settled_only_counted :
    visit_all files sample_hashes false (entry (codes "a.txt") ∷ []) (start_walk settled)
    ≡ record (start_walk settled) { n_skipped = 0 + 1 }
settled_only_counted =
    (visit_all-IsSettled sample_hashes false (entry (codes "a.txt") ∷ []) (start_walk settled)).0
      settled-IsSettled files

abbrev one_chunk : Chunk
one_chunk = record { ordinal = 1; byte_start = 0; byte_end = 9; text = codes "one. two." }

abbrev item : DocWork
item = record {
  doc_id = codes "e";
  rel_path = codes "a.txt";
  abs_path = codes "a.txt";
  mime = codes "text/plain";
  modality = codes "text";
  size = 9;
  mtime = 5;
  superseded_old = codes "d";
  chunks = one_chunk ∷ [];
}

abbrev start : RunState ℕ
start = record {
  manifest = settled;
  vectors = [];
  ttl = [];
  n_new = 0;
  n_chunks = 0;
  n_failed_extractions = 0;
}

process_run :
    stage_of (codes "e") (process files sample_hashes services item start).manifest ≡ some 4
unfolding process stage_of
process_run = refl

item_low : has_reached (stage_number vectors_written) (stage_of (codes "e") settled) ≡ false
unfolding stage_of bytes_eq
item_low = refl

process-Outcome_example :
    Outcome files sample_hashes services item start
      (process files sample_hashes services item start)
process-Outcome_example = process-Outcome files sample_hashes services item start item_low

stage_of-commit_work_example :
    stage_of (codes "d") (commit_work true (item ∷ []) settled)
    ≡ promote (true && is_work (codes "d") (item ∷ [])) (stage_of (codes "d") settled)
stage_of-commit_work_example = stage_of-commit_work true (item ∷ []) settled (codes "d")

item_listed : is_work (codes "e") (item ∷ []) ≡ true
unfolding bytes_eq
item_listed = refl

commit_work-process_all_example :
    stage_of (codes "e") (
      commit_work true
        (item ∷ [])
        (process_all files sample_hashes services (item ∷ []) start).manifest)
    ≡ some (stage_number committed)
commit_work-process_all_example =
    commit_work-process_all files sample_hashes services vector_of (λ ts. refl) (λ ks vs. refl)
      (item ∷ []) start (codes "e") ((refl, refl), tt) item_listed

abbrev texts : List Bytes
texts = codes "a" ∷ codes "bc" ∷ []

embed_all_lem_example :
    embed_all files sample_hashes services (length texts) texts ≡ some (map vector_of texts)
embed_all_lem_example = embed_all_lem files sample_hashes services vector_of (λ ts. refl) texts

-- The process is killed before `commit`.
close-register_example :
    close (
      run_calls
        (take 4 (transaction true true (register_writes files sample_hashes services item)))
        (connected settled))
    ≡ (if true && (leb (length (register_writes files sample_hashes services item) + 2) 4 && true)
        then register files sample_hashes services item settled
        else settled)
close-register_example = close-register files sample_hashes services true true item 4 settled

killed_run :
    close (
      run_calls
        (take 4 (transaction true true (register_writes files sample_hashes services item)))
        (connected settled))
    ≡ settled
unfolding run_calls close register_writes
killed_run = refl

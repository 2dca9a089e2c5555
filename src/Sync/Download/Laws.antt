-- ===== src/Sync/Download/Laws.antt =====
-- What an attempt of a download leaves on disk, path by path.
use mathlib.Core.Path.{subst}
use sync.Prelude.{
  ap, ℕ, zero, suc, String, true, false, Option, none, some, List, [], ◌∷◌, ◌≡◌, refl, sym, ◌∙◌,
  ◌==◌, ==-refl, arith, contains, take, string_eq, inl, inr, Bool-cases,
}
use sync.Prelude.Table
use sync.Prelude.Table.{find-upsert, find-remove, has_of_find}
use sync.Fs.Disk.{
  Node, Content, bytes, stub, directory, node_path, write, exists, is_directory, rm_sync,
  mkdir_sync, mkdir_code, rename_sync, rename_found,
}
use sync.S3.Retry.{Attempted, returned, ErrorChain}
use sync.Sync.Download.{
  GetAnswer, failed, missing, unmade, broken, refused, decrypted, after_mkdir, partly_written,
  discard, renamed, durable_rename, download_attempt,
}

abbrev pub file_at : String → List Node → Option Node
file_at = Table.find node_path

abbrev pub file_of : String → String → Option Node
file_of path hash = some (record { path = path; content = bytes hash })

file_at-write :
    (t : String) (content : Content) (disk : List Node)
    → file_at t (write t content disk) ≡ some (record { path = t; content = content })
unfolding write
file_at-write t content disk =
    find-upsert node_path t (record { path = t; content = content }) disk ∙ rw (==-refl t) refl

contains-take :
    (q : String) (n : ℕ) (paths : List String)
    → contains q (take n paths) ≡ true
    → contains q paths ≡ true
contains-take q zero paths h = cc
contains-take q (suc n) [] h = cc
contains-take q (suc n) (p ∷ paths) h = ground (arith, contains-take q n paths)

module _ (path : String) (parents : List String) (temp : ℕ → String) (hash : String) where
  -- What may have become of a path: nothing; it is a directory above the target, and was missing; it
  -- is the target, or the temporary file of an attempt, and holds the whole content.
  pub data IsLeft (q : String) (before after : Option Node) : Type 0 where
    kept : after ≡ before → IsLeft q before after
    made :
        contains q parents ≡ true
        → before ≡ none
        → after ≡ some (record { path = q; content = directory })
        → IsLeft q before after
    replaced : path ≡ q → after ≡ file_of q hash → IsLeft q before after
    left_over : (n : ℕ) → temp n ≡ q → after ≡ file_of q hash → IsLeft q before after

  -- At every path.
  abbrev pub AreLeft : List Node → List Node → Type 0
  AreLeft start disk = (q : String) → IsLeft q (file_at q start) (file_at q disk)

  missing_before :
      (q : String) (before after : Option Node)
      → IsLeft q before after
      → after ≡ none
      → before ≡ none
  missing_before q before after (kept same) gone = sym same ∙ gone
  missing_before q before after (made above absent is) gone = absent
  missing_before q before after (replaced at is) gone = cc
  missing_before q before after (left_over n at is) gone = cc

  moved :
      (q : String) (before after after' : Option Node)
      → IsLeft q before after
      → after' ≡ after
      → IsLeft q before after'
  moved q before after after' left same = subst (IsLeft q before) (sym same) left

  write_directory :
      (p : String) (start disk : List Node)
      → contains p parents ≡ true
      → file_at p disk ≡ none
      → AreLeft start disk
      → AreLeft start (write p directory disk)
  unfolding write
  write_directory p start disk above absent left q =
      let found = find-upsert node_path q (record { path = p; content = directory }) disk in
      elim (Bool-cases (p == q)) [
        | inl same ↦
            let at : p ≡ q = ground arith in
            made (ap (λ y. contains y parents) (sym at) ∙ above)
              (missing_before q (file_at q start) (file_at q disk) (left q)
                (ap (λ y. file_at y disk) (sym at) ∙ absent))
              (found ∙ ground (arith, at))
        | inr other ↦ moved q (file_at q start) (file_at q disk) _ (left q) (found ∙ rw other refl)
      ]

  mkdir-AreLeft :
      (paths : List String) (start disk : List Node)
      → ((q : String) → contains q paths ≡ true → contains q parents ≡ true)
      → AreLeft start disk
      → AreLeft start (mkdir_sync paths disk).1
  unfolding mkdir_sync
  mkdir-AreLeft [] start disk above left = left
  mkdir-AreLeft (p ∷ paths) start disk above left =
      go (λ d. mkdir-AreLeft paths start d (λ q h. above q (ground arith))) (file_at p disk) refl
    where
      of_content :
          (content : Content)
          → AreLeft start (mkdir_sync paths disk).1
          → let out : Option String × List Node = elim content [
            | directory ↦ mkdir_sync paths disk
            | _ ↦ (some (mkdir_code paths), disk)
          ] in
            AreLeft start out.1
      of_content directory again = again
      of_content (bytes h) again = left
      of_content (stub h) again = left

      go :
          ((d : List Node) → AreLeft start d → AreLeft start (mkdir_sync paths d).1)
          → (o : Option Node) → file_at p disk ≡ o
          → let out : Option String × List Node = elim o [
            | none ↦ mkdir_sync paths (write p directory disk)
            | some n ↦ elim n.content [
              | directory ↦ mkdir_sync paths disk
              | _ ↦ (some (mkdir_code paths), disk)
            ]
          ] in
            AreLeft start out.1
      go again none at =
          again (write p directory disk)
            (write_directory p start disk (above p (rw (==-refl p) refl)) at left)
      go again (some n) at = of_content n.content (again disk left)

  -- At every path but one.
  abbrev LeftBut : String → List Node → List Node → Type 0
  LeftBut t start disk =
      (q : String) → (t == q) ≡ false → IsLeft q (file_at q start) (file_at q disk)

  write-LeftBut :
      (t : String) (content : Content) (start disk : List Node)
      → AreLeft start disk
      → LeftBut t start (write t content disk)
  unfolding write
  write-LeftBut t content start disk left q other =
      moved q (file_at q start) (file_at q disk) _ (left q)
        (find-upsert node_path q (record { path = t; content = content }) disk ∙ rw other refl)

  remove-AreLeft :
      (t : String) (start disk : List Node)
      → file_at t start ≡ none
      → LeftBut t start disk
      → AreLeft start (Table.remove node_path t disk)
  remove-AreLeft t start disk fresh left q =
      let found = find-remove node_path q t disk in
      elim (Bool-cases (t == q)) [
        | inl same ↦
            let at : t ≡ q = ground arith in
            kept (found ∙ rw same (sym (ap (λ y. file_at y start) (sym at) ∙ fresh)))
        | inr other ↦
            moved q (file_at q start) (file_at q disk) _ (left q other) (found ∙ rw other refl)
      ]

  rm_sync-written :
      (t h : String) (start disk : List Node)
      → file_at t start ≡ none
      → AreLeft start disk
      → AreLeft start (rm_sync t (write t (bytes h) disk))
  unfolding rm_sync is_directory
  rm_sync-written t h start disk fresh left =
      let at = file_at-write t (bytes h) disk in
      rw at (
        remove-AreLeft t start (write t (bytes h) disk) fresh
          (write-LeftBut t (bytes h) start disk left))

  discard-AreLeft :
      (t : String) (written : Option String) (start disk : List Node)
      → file_at t start ≡ none
      → AreLeft start disk
      → AreLeft start (discard t (partly_written t written disk))
  unfolding discard exists
  discard-AreLeft t (some h) start disk fresh left =
      let there = has_of_find node_path t _ _ (file_at-write t (bytes h) disk) in
      rw there (rm_sync-written t h start disk fresh left)
  discard-AreLeft t none start disk fresh left = elim (Bool-cases (Table.has node_path t disk)) [
    | inl there ↦ rw there (
        unfold rm_sync in
        elim (Bool-cases (is_directory t disk)) [
          | inl dir ↦ rw dir left
          | inr file ↦ rw file (remove-AreLeft t start disk fresh (λ q other. left q))
        ])
    | inr absent ↦ rw absent left
  ]

  -- The whole content at the temporary path of an attempt.
  written-AreLeft :
      (n : ℕ) (start disk : List Node)
      → AreLeft start disk
      → AreLeft start (write (temp n) (bytes hash) disk)
  written-AreLeft n start disk left q = elim (Bool-cases (temp n == q)) [
    | inl same ↦
        let at : temp n ≡ q = ground arith in
        left_over n at (
          subst (λ y. file_at y (write (temp n) (bytes hash) disk) ≡ file_of y hash) at
            (file_at-write (temp n) (bytes hash) disk))
    | inr other ↦ write-LeftBut (temp n) (bytes hash) start disk left q other
  ]

  -- What holds after an attempt: of every path, and of the target once it has returned.
  abbrev pub IsAttempted : List Node → Attempted (Unit {0}) × List Node → Type 0
  IsAttempted start out =
      AreLeft start out.1
      × ((a : Unit {0}) → out.0 ≡ returned a → file_at path out.1 ≡ file_of path hash)

  replace-AreLeft :
      (start disk : List Node) → AreLeft start disk → AreLeft start (write path (bytes hash) disk)
  replace-AreLeft start disk left q = elim (Bool-cases (path == q)) [
    | inl same ↦
        let at : path ≡ q = ground arith in
        replaced at (
          subst (λ y. file_at y (write path (bytes hash) disk) ≡ file_of y hash) at
            (file_at-write path (bytes hash) disk))
    | inr other ↦ write-LeftBut path (bytes hash) start disk left q other
  ]

  durable_rename-IsAttempted :
      (n : ℕ) (failure : Option ErrorChain) (start disk : List Node)
      → file_at (temp n) start ≡ none
      → AreLeft start disk
      → IsAttempted start (durable_rename (temp n) path failure (write (temp n) (bytes hash) disk))
  unfolding durable_rename rename_sync
  durable_rename-IsAttempted n (some e) start disk fresh left =
      (written-AreLeft n start disk left, λ a r. cc)
  durable_rename-IsAttempted n none start disk fresh left =
      let written = write (temp n) (bytes hash) disk in
      subst (λ o. IsAttempted start (renamed (rename_found (temp n) path o written) written))
        (sym (file_at-write (temp n) (bytes hash) disk))
        (elim (Bool-cases (is_directory path written)) [
          | inl dir ↦ rw dir (written-AreLeft n start disk left, λ a r. cc)
          | inr file ↦ rw file (
            replace-AreLeft start (Table.remove node_path (temp n) written) (
                remove-AreLeft (temp n) start written fresh
                  (write-LeftBut (temp n) (bytes hash) start disk left)),
            λ a r. file_at-write path (bytes hash) (Table.remove node_path (temp n) written),
          )
        ])

  after_mkdir-IsAttempted :
      (paths : List String) (start disk : List Node)
      (go_on : List Node → Attempted (Unit {0}) × List Node)
      → ((q : String) → contains q paths ≡ true → contains q parents ≡ true)
      → AreLeft start disk
      → ((d : List Node) → AreLeft start d → IsAttempted start (go_on d))
      → IsAttempted start (after_mkdir (mkdir_sync paths disk) go_on)
  after_mkdir-IsAttempted paths start disk go_on above left next =
      go (mkdir_sync paths disk) (mkdir-AreLeft paths start disk above left)
    where
      go :
          (o : Option String × List Node)
          → AreLeft start o.1
          → IsAttempted start (after_mkdir o go_on)
      go (none, d) h = next d h
      go (some code, d) h = (h, λ a r. cc)

  pub attempt-IsAttempted :
      (n : ℕ) (answer : GetAnswer) (start disk : List Node)
      → file_at (temp n) start ≡ none
      → AreLeft start disk
      → IsAttempted start (download_attempt path parents (temp n) hash answer disk)
  unfolding download_attempt
  attempt-IsAttempted n (failed e) start disk fresh left = (left, λ a r. cc)
  attempt-IsAttempted n missing start disk fresh left = (left, λ a r. cc)
  attempt-IsAttempted n (unmade k e) start disk fresh left =
      after_mkdir-IsAttempted (take k parents) start disk _ (λ q h. contains-take q k parents h)
        left λ d h. (h, λ a r. cc)
  attempt-IsAttempted n (broken written e) start disk fresh left =
      after_mkdir-IsAttempted parents start disk _ (λ q h. h) left
        λ d h. (discard-AreLeft (temp n) written start d fresh h, λ a r. cc)
  attempt-IsAttempted n (refused written) start disk fresh left =
      after_mkdir-IsAttempted parents start disk _ (λ q h. h) left
        λ d h. (discard-AreLeft (temp n) written start d fresh h, λ a r. cc)
  attempt-IsAttempted n (decrypted computed failure) start disk fresh left =
      after_mkdir-IsAttempted parents start disk _ (λ q h. h) left
        λ d h. elim (Bool-cases (computed == hash)) [
          | inl same ↦
              let at : hash ≡ computed = ground arith in
              rw same (
                subst
                  (λ c.
                    IsAttempted start
                      (durable_rename (temp n) path failure (write (temp n) (bytes c) d)))
                  at (durable_rename-IsAttempted n failure start d fresh h))
          | inr differs ↦ rw differs (rm_sync-written (temp n) computed start d fresh h, λ a r. cc)
        ]

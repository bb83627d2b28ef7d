-- ===== src/Files/Atomic.antt =====
-- A file is replaced as a whole or not at all.
use mgl03_homekit_bridge.Common.{
  ℕ, ◌≡◌, ◌≢◌, refl, ◌∙◌, ◌⊎◌, inl, inr, true, false, Option, none, some, List, [], ◌∷◌, ◌++◌,
  Bytes, eq_bytes, eq_bytes_iff, eq_bytes_refl, take, map, if◌then◌else◌, arith, All, Bool-cases,
  Option-cases, is_some,
}
use mgl03_homekit_bridge.Common.Table.{
  lookup, insert, delete, lookup-insert, lookup-insert_self, lookup-delete,
}
use mgl03_homekit_bridge.Files.{
  Disk, Faults, FileError, Outcome, chmod_failed, write_failed, close_failed, rename_failed,
  remove_temp, fail, rename_temp, write_temp, replace_file, write_json, disk_after,
}

-- The disk `d'` agrees with `d` but for the temporary file, and but for `path` if that has the new text.
pub record IsWhole (temp path text : Bytes) (d d' : Disk) : Type 0 where
  pub whole : (lookup path d' ≡ lookup path d) ⊎ (lookup path d' ≡ some text)
  pub kept : (k : Bytes) → k ≢ temp → k ≢ path → lookup k d' ≡ lookup k d

module _ (temp path text : Bytes) (other : eq_bytes temp path ≡ false) where
  IsWhole-refl : (d : Disk) → IsWhole temp path text d d
  IsWhole-refl d = record { whole = inl refl; kept = λ k a b. refl }

  IsWhole-insert :
      (d d' : Disk) (s : Bytes)
      → IsWhole temp path text d d'
      → IsWhole temp path text d (insert temp s d')
  IsWhole-insert d d' s h = record {
    whole = rw (lookup-insert path temp s d', other) h.whole;
    kept = λ k a b. ground (arith, lookup-insert k temp s d', eq_bytes_iff temp k, h.kept k a b);
  }

  IsWhole-delete :
      (d d' : Disk) → IsWhole temp path text d d' → IsWhole temp path text d (delete temp d')
  IsWhole-delete d d' h = record {
    whole = rw (lookup-delete path temp d', other) h.whole;
    kept = λ k a b. ground (arith, lookup-delete k temp d', eq_bytes_iff temp k, h.kept k a b);
  }

  IsWhole-remove :
      (f : Faults) (d d' : Disk)
      → IsWhole temp path text d d'
      → IsWhole temp path text d (remove_temp f temp d')
  unfolding remove_temp
  IsWhole-remove f d d' h = elim (Bool-cases f.remove) [
    | inl stays ↦ rw stays h
    | inr goes ↦ rw goes (IsWhole-delete d d' h)
  ]

  IsWhole-rename :
      (d d' : Disk)
      → IsWhole temp path text d d'
      → IsWhole temp path text d (insert path text (delete temp d'))
  IsWhole-rename d d' h = record {
    whole = inr (lookup-insert_self path text (delete temp d'));
    kept = λ k a b. ground (
      arith,
      lookup-insert k path text (delete temp d'),
      lookup-delete k temp d',
      eq_bytes_iff temp k,
      eq_bytes_iff path k,
      h.kept k a b,
    );
  }

  -- The steps of a run from `d` that has at least one: every state on the way is whole, and the last one
  -- is as the result says, whatever stood before.
  record IsAtomic (f : Faults) (d : Disk) (o : Outcome) : Type 0 where
    each : All (IsWhole temp path text d) o.0
    written : (s : Disk) → o.1 ≡ none → lookup path (disk_after s o) ≡ some text
    failed :
        (s : Disk) (e : FileError) → o.1 ≡ some e → lookup path (disk_after s o) ≡ lookup path d
    gone : (s : Disk) → f.remove ≡ false → lookup temp (disk_after s o) ≡ none

  lookup-remove : (f : Faults) (d : Disk) → lookup path (remove_temp f temp d) ≡ lookup path d
  unfolding remove_temp
  lookup-remove f d = ground (arith, lookup-delete path temp d, other)

  removed : (f : Faults) (d : Disk) → f.remove ≡ false → lookup temp (remove_temp f temp d) ≡ none
  unfolding remove_temp
  removed f d r = simp (r, lookup-delete, eq_bytes_refl)

  fail-IsAtomic :
      (f : Faults) (e : FileError) (d d' : Disk)
      → IsWhole temp path text d d'
      → lookup path d' ≡ lookup path d
      → IsAtomic f d (fail f temp e d')
  unfolding fail
  fail-IsAtomic f e d d' h same = record {
    each = (h, (IsWhole-remove f d d' h, tt));
    written = λ s w. cc;
    failed = λ s x w. lookup-remove f d' ∙ same;
    gone = λ s r. removed f d' r;
  }

  rename_temp-IsAtomic :
      (f : Faults) (d d' : Disk)
      → IsWhole temp path text d d'
      → lookup path d' ≡ lookup path d
      → IsAtomic f d (rename_temp f temp path text d')
  unfolding rename_temp
  rename_temp-IsAtomic f d d' h same = elim (Bool-cases f.close) [
    | inl e ↦ simp e (fail-IsAtomic f close_failed d d' h same)
    | inr closes ↦ simp closes (elim (Bool-cases f.rename) [
      | inl e ↦ simp e (fail-IsAtomic f rename_failed d d' h same)
      | inr renames ↦
          let done = IsWhole-rename d d' h in
          let renamed = insert path text (delete temp d') in
          simp renames (record {
            each = (h, (done, (IsWhole-remove f d renamed done, tt)));
            written =
                λ s w. lookup-remove f renamed ∙ lookup-insert_self path text (delete temp d');
            failed = λ s x w. cc;
            gone = λ s r. removed f renamed r;
          })
    ])
  ]

  lookup-temp : (s : Bytes) (d : Disk) → lookup path (insert temp s d) ≡ lookup path d
  lookup-temp s d = rw (lookup-insert path temp s d, other)

  write_temp-IsAtomic :
      (f : Faults) (d created : Disk) (stops : Option ℕ)
      → IsWhole temp path text d created
      → lookup path created ≡ lookup path d
      → IsAtomic f d (write_temp f temp path text created stops)
  unfolding write_temp
  write_temp-IsAtomic f d created (some n) h same =
      fail-IsAtomic f write_failed d (insert temp (take n text) created)
        (IsWhole-insert d created (take n text) h) (lookup-temp (take n text) created ∙ same)
  write_temp-IsAtomic f d created none h same =
      rename_temp-IsAtomic f d (insert temp text created) (IsWhole-insert d created text h)
        (lookup-temp text created ∙ same)

  partial-IsWhole :
      (d created : Disk) (parts : List ℕ)
      → IsWhole temp path text d created
      → All (IsWhole temp path text d) (map (λ n. insert temp (take n text) created) parts)
  partial-IsWhole d created [] h = tt
  partial-IsWhole d created (n ∷ parts) h =
      (IsWhole-insert d created (take n text) h, partial-IsWhole d created parts h)

  -- More states before the last ones do not matter.
  IsAtomic-more :
      (f : Faults) (d : Disk) (more : List Disk) (o : Outcome)
      → All (IsWhole temp path text d) more
      → IsAtomic f d o
      → IsAtomic f d (more ++ o.0, o.1)
  IsAtomic-more f d [] o hs h = h
  IsAtomic-more f d (m ∷ more) o (hm, hs) h =
      let rest = IsAtomic-more f d more o hs h in
      record {
        each = (hm, rest.each);
        written = λ s w. rest.written m w;
        failed = λ s e w. rest.failed m e w;
        gone = λ s r. rest.gone m r;
      }

  replace_file-IsAtomic :
      (f : Faults) (d : Disk) → f.create ≡ false → IsAtomic f d (replace_file f temp path text d)
  unfolding replace_file
  replace_file-IsAtomic f d creates =
      let created = insert temp [] d in
      let start = IsWhole-insert d d [] (IsWhole-refl d) in
      let same = lookup-temp [] d in
      let later = write_temp-IsAtomic f d created f.stops start same in
      simp creates (elim (Bool-cases f.chmod) [
        | inl e ↦ simp e (fail-IsAtomic f chmod_failed d created start same)
        | inr works ↦ simp works (
            IsAtomic-more f d (created ∷ map (λ n. insert temp (take n text) created) f.parts)
              (write_temp f temp path text created f.stops)
              (start, partial-IsWhole d created f.parts start) later)
      ])

-- `text` with the newline that ends each file.
abbrev pub line : Bytes → Bytes
line text = text ++ (10 ∷ [])

-- Whatever the operating system answers, and wherever the program is stopped: at every step the file
-- holds its old content or the whole new one, and no file but it and the temporary one differs. In the
-- end it holds the new one if no error is returned, and its old content otherwise. The temporary file,
-- whose name was free and is another one, is gone in the end unless its removal fails.
pub write_json_lem :
    (f : Faults) (temp path text : Bytes) (d : Disk)
    → eq_bytes temp path ≡ false
    → lookup temp d ≡ none
    → let o = write_json f temp path (some text) d in
      All (IsWhole temp path (line text) d) o.0
      × (lookup path (disk_after d o) ≡ (if is_some o.1 then lookup path d else some (line text)))
      × ((f.remove ≡ true) ⊎ (lookup temp (disk_after d o) ≡ none))
unfolding write_json
write_json_lem f temp path text d other fresh = elim (Bool-cases f.mkdir) [
  | inl e ↦ simp e (tt, refl, inr fresh)
  | inr works ↦ simp works (elim (Bool-cases f.create) [
    | inl e ↦ unfold replace_file in simp e (tt, refl, inr fresh)
    | inr creates ↦
        let o = replace_file f temp path (line text) d in
        let done = replace_file-IsAtomic temp path (line text) other f d creates in
        (
          done.each,
          elim (Option-cases o.1) [
            | inl e ↦ done.written d e ∙ rw e refl
            | inr (x, e) ↦ done.failed d x e ∙ rw e refl
          ],
          elim (Bool-cases f.remove) [ inl e ↦ inl e | inr e ↦ inr (done.gone d e) ],
        )
  ])
]

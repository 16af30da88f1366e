-- ===== src/Context/Coherent.antt =====
-- `GraftContext.read` and `write` of scripts/abk_backport_engine.py: the cache and the disk, outside
-- dry runs.
use abk_5_15_backport.Prelude.{
  Bool, true, false, Option, none, some, ◌≡◌, refl, ◌∙◌, ap, sym, arith, inl, inr, Bool-cases,
  Option-cases, is_some,
}
use abk_5_15_backport.Text.{Text, text_eq}
use abk_5_15_backport.Text.Find.{text_eq_iff}
use abk_5_15_backport.Result.{Result, ok, err}
use abk_5_15_backport.Disk.{
  FilePath, File, utf8, binary, unreadable, Disk, update, read_text, read_bytes, decode, write_text,
}
use abk_5_15_backport.Disk.Laws.{
  write_text_keeps, write_text_self, write_text_succeeds, write_text-locked, update_self,
}
use abk_5_15_backport.Context.Laws.{written_fields, read-Reads}
use abk_5_15_backport.Context.{Context, read, keep_text, write, mark_dirty}

abbrev pub IsCoherent : Context → Type 0
IsCoherent c =
    c.dry_run ≡ false
    → (p : FilePath) (t : Text) → c.texts p ≡ some t
    → c.disk.file p ≡ some (utf8 t)

abbrev pub IsFree : Context → Type 0
IsFree c = (p : FilePath) → c.disk.locked p ≡ false

file_of_read_text :
    (d : Disk) (p : FilePath) (t : Text) → read_text d p ≡ ok t → d.file p ≡ some (utf8 t)
unfolding read_text
file_of_read_text d p t h = go (d.file p) h
  where
    go : (o : Option File) → decode p (read_bytes p o) ≡ ok t → o ≡ some (utf8 t)
    go none x = absurd (ground arith)
    go (some unreadable) x = absurd (ground arith)
    go (some (utf8 u)) x = ground arith
    go (some (binary bs)) x = absurd (ground arith)

keep_text-IsCoherent :
    (rel : FilePath) (r : Result Text) (c : Context)
    → read_text c.disk rel ≡ r
    → IsCoherent c
    → IsCoherent (keep_text rel r c).1
unfolding keep_text update
keep_text-IsCoherent rel (ok u) c e h dry p t x = elim (Bool-cases (text_eq rel p)) [
  | inl eq ↦
      let same = (text_eq_iff rel p).0 eq in
      let was = file_of_read_text c.disk rel u e in let now = ap c.disk.file same in ground arith
  | inr ne ↦ h dry p t (ground arith)
]
keep_text-IsCoherent rel (err x) c e h dry p t y = h dry p t y

pub read-IsCoherent : (rel : FilePath) (c : Context) → IsCoherent c → IsCoherent (read rel c).1
unfolding read
read-IsCoherent rel c h = elim (Option-cases (c.texts rel)) [
  | inl e ↦ rw (e, read) (keep_text-IsCoherent rel (read_text c.disk rel) c refl h)
  | inr (t, e) ↦ rw (e, read) h
]

module _ (rel : FilePath) (text : Text) (c : Context) where
  abbrev cached : Context
  cached = record c { texts = update c.texts rel text }

  pub write-dry_run : (write rel text c).1.dry_run ≡ c.dry_run
  unfolding write mark_dirty
  write-dry_run = ground (arith, written_fields rel cached (write_text rel text true c.disk))

  -- The cache shows the new text whether the write raises or not.
  pub write-texts : (write rel text c).1.texts ≡ update c.texts rel text
  unfolding write mark_dirty
  write-texts = ground (arith, written_fields rel cached (write_text rel text true c.disk))

  pub write_real :
      c.dry_run ≡ false
      → ((write rel text c).0 ≡ (write_text rel text true c.disk).0)
        × ((write rel text c).1.disk ≡ (write_text rel text true c.disk).1)
  unfolding write mark_dirty
  write_real h = ground (arith, written_fields rel cached (write_text rel text true c.disk))

  pub write-locked : (write rel text c).1.disk.locked ≡ c.disk.locked
  unfolding write mark_dirty
  write-locked = ground (
    arith,
    written_fields rel cached (write_text rel text true c.disk),
    write_text-locked rel text c.disk,
  )

-- Where cache and disk agree, a write that raises nothing keeps them in agreement.
pub write-IsCoherent :
    (rel : FilePath) (text : Text) (c : Context)
    → IsCoherent c
    → (write rel text c).0 ≡ ok tt
    → IsCoherent (write rel text c).1
write-IsCoherent rel text c h e dry p t x =
    let real = sym (write-dry_run rel text c) ∙ dry in
    let (status, disk) = write_real rel text c real in
    let shown = ap (λ (f : FilePath → Option Text). f p) (sym (write-texts rel text c)) ∙ x in
    rw disk (elim (Bool-cases (text_eq rel p)) [
      | inl eq ↦
          let same = (text_eq_iff rel p).0 eq in
          let text_same : text ≡ t = unfold update in ground arith in
          rw (← same, ← text_same) (write_text_self rel text c.disk (sym status ∙ e))
      | inr ne ↦
          write_text_keeps rel p text c.disk (utf8 t) (λ q. ground (arith, text_eq_iff rel p))
            (h real p t (unfold update in ground arith))
    ])

-- Where nothing is locked and the file is in the cache, a write raises nothing.
pub write_succeeds :
    (rel : FilePath) (text u : Text) (c : Context)
    → IsCoherent c
    → IsFree c
    → c.texts rel ≡ some u
    → (write rel text c).0 ≡ ok tt
unfolding write
write_succeeds rel text u c h free e = elim (Bool-cases c.dry_run) [
  | inl dry ↦ ground arith
  | inr real ↦
      let done = write_text_succeeds rel text u c.disk free (h real rel u e) in
      (write_real rel text c real).0 ∙ done
]

-- Cache and disk agree, and no path is locked.
pub record IsSound (c : Context) : Type 0 where
  pub coherent : IsCoherent c
  pub free : IsFree c

pub read-IsSound : (rel : FilePath) (c : Context) → IsSound c → IsSound (read rel c).1
read-IsSound rel c h = record {
  coherent = read-IsCoherent rel c h.coherent;
  free = λ p. ap (λ (d : Disk). d.locked p) (read-Reads rel c).disk ∙ h.free p;
}

pub write-IsSound :
    (rel : FilePath) (text : Text) (c : Context)
    → IsSound c
    → (write rel text c).0 ≡ ok tt
    → IsSound (write rel text c).1
write-IsSound rel text c h e = record {
  coherent = write-IsCoherent rel text c h.coherent e;
  free = λ p. ap (λ (f : FilePath → Bool). f p) (write-locked rel text c) ∙ h.free p;
}

-- What is in the cache stays there.
abbrev pub Grows : Context → Context → Type 0
Grows c d = (p : FilePath) → is_some (c.texts p) ≡ true → is_some (d.texts p) ≡ true

update_grows :
    (f : FilePath → Option Text) (q : FilePath) (t : Text) (p : FilePath)
    → is_some (f p) ≡ true
    → is_some (update f q t p) ≡ true
unfolding update
update_grows f q t p h = ground arith

keep_text-Grows : (rel : FilePath) (r : Result Text) (c : Context) → Grows c (keep_text rel r c).1
unfolding keep_text
keep_text-Grows rel (ok t) c p h = update_grows c.texts rel t p h
keep_text-Grows rel (err x) c p h = h

pub read-Grows : (rel : FilePath) (c : Context) → Grows c (read rel c).1
unfolding read
read-Grows rel c = elim (Option-cases (c.texts rel)) [
  | inl e ↦ rw (e, read) (keep_text-Grows rel (read_text c.disk rel) c)
  | inr (t, e) ↦ rw (e, read) (λ p h. h)
]

pub write-Grows : (rel : FilePath) (text : Text) (c : Context) → Grows c (write rel text c).1
write-Grows rel text c p h = rw write-texts (update_grows c.texts rel text p h)

pub read_cached :
    (rel : FilePath) (t : Text) (c : Context)
    → (read rel c).0 ≡ ok t
    → is_some ((read rel c).1.texts rel) ≡ true
unfolding read
read_cached rel t c h = elim (Option-cases (c.texts rel)) [
  | inl e ↦ rw (e, read) (kept (read_text c.disk rel) (rw (e, read) at h))
  | inr (u, e) ↦ rw (e, read) (ap is_some e)
]
  where
    kept :
        (r : Result Text)
        → (keep_text rel r c).0 ≡ ok t
        → is_some ((keep_text rel r c).1.texts rel) ≡ true
    kept (ok u) x = unfold keep_text in rw (update_self c.texts rel u)
    kept (err e) x = absurd (unfold keep_text in ground arith)

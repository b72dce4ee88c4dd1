-- ===== src/Store/Flush/Atomic.antt =====
-- `writeFileAtomic` of server/store.go, with every call of the file system free to fail and a power
-- cut possible between any two of them.
use stem_computing_desktop_p.Prelude.{
  ℕ, ◌≡◌, ◌∙◌, refl, ◌⊎◌, inl, inr, Bool, true, false, Option, none, some, [], take,
}
use stem_computing_desktop_p.Platform.{Bytes}

-- The file at `path` and the one at `path + ".tmp"`, as the system shows them; whether the bytes of each
-- are on the disk itself, and what lies at `path` on the disk if a rename has not got there yet.
pub record Files : Type 0 where
  pub target : Option Bytes
  pub tmp : Option Bytes
  pub on_disk : Bool
  pub tmp_on_disk : Bool
  pub before : Option Bytes

-- Where the routine stands. `closing` and `ended` say whether `err` is nil.
pub data Phase : Type 0 where
  opening writing syncing removing renaming : Phase
  closing ended : Bool → Phase

pub record Run : Type 0 where
  pub phase : Phase
  pub files : Files

abbrev pub at : Phase → Files → Run
at p f = record { phase = p; files = f }

-- One call of the file system.
pub data Step (content : Bytes) : Run → Run → Type 0 where
  opened :
      (f : Files)
      → Step content (at opening f) (at writing (record f { tmp = some []; tmp_on_disk = false }))
  not_opened : (f : Files) → Step content (at opening f) (at (ended false) f)
  wrote_some :
      (f : Files) (n : ℕ)
      → Step content
          (at writing f)
          (at writing (record f { tmp = some (take n content); tmp_on_disk = false }))
  wrote_all :
      (f : Files)
      → Step content
          (at writing f)
          (at syncing (record f { tmp = some content; tmp_on_disk = false }))
  not_written : (f : Files) → Step content (at writing f) (at (closing false) f)
  synced :
      (f : Files)
      → Step content (at syncing f) (at (closing true) (record f { tmp_on_disk = true }))
  not_synced : (f : Files) → Step content (at syncing f) (at (closing false) f)
  closed : (f : Files) → Step content (at (closing true) f) (at renaming f)
  closed_after_error : (f : Files) → Step content (at (closing false) f) (at removing f)
  not_closed : (f : Files) (b : Bool) → Step content (at (closing b) f) (at removing f)
  removed : (f : Files) → Step content (at removing f) (at (ended false) (record f { tmp = none }))
  not_removed : (f : Files) → Step content (at removing f) (at (ended false) f)
  renamed :
      (f : Files)
      → Step content (at renaming f) (
          at (ended true) (record {
            target = f.tmp;
            tmp = none;
            on_disk = f.tmp_on_disk;
            tmp_on_disk = false;
            before = f.target;
          }))
  not_renamed : (f : Files) → Step content (at renaming f) (at (ended false) f)

pub data Reach (content : Bytes) (r : Run) : Run → Type 0 where
  here : Reach content r r
  next : {s t : Run} → Reach content r s → Step content s t → Reach content r t

-- What is known at each point, from the old file and the new content.
abbrev Known : Option Bytes → Bytes → Phase → Files → Type 0
Known old content syncing f = (f.target ≡ old) × (f.tmp ≡ some content)
Known old content renaming f = (f.target ≡ old) × (f.tmp ≡ some content)
Known old content (closing true) f = (f.target ≡ old) × (f.tmp ≡ some content)
Known old content (ended true) f = f.target ≡ some content
Known old content _ f = f.target ≡ old

Step-Known :
    {content : Bytes} {r s : Run} (old : Option Bytes)
    → Step content r s
    → Known old content r.phase r.files
    → Known old content s.phase s.files
Step-Known old (opened f) k = k
Step-Known old (not_opened f) k = k
Step-Known old (wrote_some f n) k = k
Step-Known old (wrote_all f) k = (k, refl)
Step-Known old (not_written f) k = k
Step-Known old (synced f) k = k
Step-Known old (not_synced f) k = k.0
Step-Known old (closed f) k = k
Step-Known old (closed_after_error f) k = k
Step-Known old (not_closed f true) k = k.0
Step-Known old (not_closed f false) k = k
Step-Known old (removed f) k = k
Step-Known old (not_removed f) k = k
Step-Known old (renamed f) k = k.1
Step-Known old (not_renamed f) k = k.0

Reach-Known :
    {content : Bytes} {r s : Run} (old : Option Bytes)
    → Known old content r.phase r.files
    → Reach content r s
    → Known old content s.phase s.files
Reach-Known old k here = k
Reach-Known old k (next path st) = Step-Known old st (Reach-Known old k path)

-- What `writeFileAtomic` leaves at `path` when it returns nil, or an error.
abbrev pub result : Bool → Option Bytes → Bytes → Option Bytes
result true old content = some content
result false old content = old

-- What lies at `path` when the power is back: the bytes that were there, if they had got to the disk, or
-- any bytes; or what was there before a rename that had not got to the disk.
pub data PowerCut (f : Files) : Option Bytes → Type 0 where
  kept : f.on_disk ≡ true → PowerCut f f.target
  lost : (x : Option Bytes) → f.on_disk ≡ false → PowerCut f x
  not_there : PowerCut f f.before

TmpOnDisk : Phase → Files → Type 0
TmpOnDisk renaming f = f.tmp_on_disk ≡ true
TmpOnDisk (closing true) f = f.tmp_on_disk ≡ true
TmpOnDisk _ f = Unit {0}

-- What the disk itself holds at each point: the old file, until the rename.
record Safe (old : Option Bytes) (p : Phase) (f : Files) : Type 0 where
  before : f.before ≡ old
  on_disk : f.on_disk ≡ true
  tmp : TmpOnDisk p f

moved_on :
    {old : Option Bytes} {p : Phase} {f : Files} (q : Phase) (g : Files)
    → g.before ≡ f.before
    → g.on_disk ≡ f.on_disk
    → TmpOnDisk q g
    → Safe old p f
    → Safe old q g
moved_on q g b d t h = record { before = b ∙ h.before; on_disk = d ∙ h.on_disk; tmp = t }

Step-Safe :
    {content : Bytes} {r s : Run} (old : Option Bytes)
    → Step content r s
    → Known old content r.phase r.files
    → Safe old r.phase r.files
    → Safe old s.phase s.files
unfolding TmpOnDisk
Step-Safe old (opened f) k h = moved_on _ _ refl refl tt h
Step-Safe old (not_opened f) k h = moved_on _ _ refl refl tt h
Step-Safe old (wrote_some f n) k h = moved_on _ _ refl refl tt h
Step-Safe old (wrote_all f) k h = moved_on _ _ refl refl tt h
Step-Safe old (not_written f) k h = moved_on _ _ refl refl tt h
Step-Safe old (synced f) k h = moved_on _ _ refl refl refl h
Step-Safe old (not_synced f) k h = moved_on _ _ refl refl tt h
Step-Safe old (closed f) k h = moved_on _ _ refl refl h.tmp h
Step-Safe old (closed_after_error f) k h = moved_on _ _ refl refl tt h
Step-Safe old (not_closed f b) k h = moved_on _ _ refl refl tt h
Step-Safe old (removed f) k h = moved_on _ _ refl refl tt h
Step-Safe old (not_removed f) k h = moved_on _ _ refl refl tt h
Step-Safe old (renamed f) k h = record { before = k.0; on_disk = h.tmp; tmp = tt }
Step-Safe old (not_renamed f) k h = moved_on _ _ refl refl tt h

Reach-Safe :
    {content : Bytes} {r s : Run} (old : Option Bytes)
    → Known old content r.phase r.files
    → Safe old r.phase r.files
    → Reach content r s
    → Safe old s.phase s.files
Reach-Safe old k h here = h
Reach-Safe old k h (next path st) =
    Step-Safe old st (Reach-Known old k path) (Reach-Safe old k h path)

-- The old content whole, or the new content whole.
abbrev pub IsWhole : Option Bytes → Bytes → Option Bytes → Type 0
IsWhole old content x = (x ≡ old) ⊎ (x ≡ some content)

Known-IsWhole :
    (old : Option Bytes) (content : Bytes) (p : Phase) (f : Files)
    → Known old content p f
    → IsWhole old content f.target
Known-IsWhole old content syncing f k = inl k.0
Known-IsWhole old content renaming f k = inl k.0
Known-IsWhole old content opening f k = inl k
Known-IsWhole old content writing f k = inl k
Known-IsWhole old content removing f k = inl k
Known-IsWhole old content (closing true) f k = inl k.0
Known-IsWhole old content (closing false) f k = inl k
Known-IsWhole old content (ended true) f k = inr k
Known-IsWhole old content (ended false) f k = inl k

PowerCut-IsWhole :
    {old : Option Bytes} {content : Bytes} {f : Files} {x : Option Bytes}
    → f.before ≡ old
    → f.on_disk ≡ true
    → IsWhole old content f.target
    → PowerCut f x
    → IsWhole old content x
PowerCut-IsWhole b d w (kept _) = w
PowerCut-IsWhole b d w (lost x n) = absurd (cc (d, n))
PowerCut-IsWhole b d w not_there = inl b

-- Wherever the power fails while `writeFileAtomic` runs or after it, the file holds its old content or the
-- whole of the new one when the power is back, if the old file was on the disk at the start. Bytes that no
-- Sync has brought to the disk may be anything then, and a rename may be undone.
pub write_file_atomic-PowerCut :
    (content : Bytes) (f : Files) (r : Run) (x : Option Bytes)
    → f.on_disk ≡ true
    → f.before ≡ f.target
    → Reach content (at opening f) r
    → PowerCut r.files x
    → IsWhole f.target content x
unfolding TmpOnDisk
write_file_atomic-PowerCut content f r x d b path cut =
    let k = Reach-Known f.target refl path in
    let h = Reach-Safe f.target refl (record { before = b; on_disk = d; tmp = tt }) path in
    PowerCut-IsWhole h.before h.on_disk (Known-IsWhole f.target content r.phase r.files k) cut

-- When it returns nil the file holds the new content, and when it returns an error the old one.
pub write_file_atomic-result :
    (content : Bytes) (f g : Files) (b : Bool)
    → Reach content (at opening f) (at (ended b) g)
    → g.target ≡ result b f.target content
write_file_atomic-result content f g true path = Reach-Known f.target refl path
write_file_atomic-result content f g false path = Reach-Known f.target refl path

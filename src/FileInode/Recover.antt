-- ===== src/FileInode/Recover.antt =====
-- src/fileinode.cpp: `recover`, which saves a file or skips it. Of the output file it reads the size
-- and the time of the last write.
use jfsrec.Prelude.{
  ℕ, ◌+◌, ◌<◌, ◌≡◌, refl, Bool, true, false, ◌||◌, Option, none, some, ltb, ◌==◌, if◌then◌else◌,
  arith,
}
use jfsrec.Device.{Read, ok, invalid_read}
use jfsrec.Disk.{Dinode}
use jfsrec.FileInode.{Saved}

pub record Output : Type 0 where
  pub file_size : ℕ
  pub last_write_time : ℕ

-- The static counters, and the output file if it exists.
pub record Recovered : Type 0 where
  pub saved : ℕ
  pub skipped : ℕ
  pub output : Option Output

unfoldable pub is_skipped : Dinode → Option Output → Bool
is_skipped ip none = false
is_skipped ip (some o) = (o.file_size == ip.di_size) || ltb ip.di_otime.tv_sec o.last_write_time

-- What is there behind a save. One that fails leaves the file that was opened, with what was written
-- until then: `left` bytes, last written at `now`.
unfoldable pub output_of : ℕ → ℕ → Dinode → Read Saved → Output
output_of now left ip (ok (file, size)) = record {
  file_size = size;
  last_write_time = ip.di_mtime.tv_sec;
}
output_of now left ip (invalid_read why) = record { file_size = left; last_write_time = now }

-- `result` is what `save_file` returns if it is called.
unfoldable pub recover : ℕ → ℕ → Dinode → Read Saved → Recovered → Recovered
unfolding is_skipped output_of
recover now left ip result r =
    if is_skipped ip r.output
    then record r { skipped = r.skipped + 1 }
    else record r { saved = r.saved + 1; output = some (output_of now left ip result) }

-- A save that ends with the size of the dinode, or one that fails later than the file was created.
abbrev pub Ends : ℕ → Dinode → Read Saved → Type 0
Ends now ip (ok (file, size)) = size ≡ ip.di_size
Ends now ip (invalid_read why) = ip.di_otime.tv_sec < now

output_of-skipped :
    (now left : ℕ) (ip : Dinode) (result : Read Saved)
    → Ends now ip result
    → is_skipped ip (some (output_of now left ip result)) ≡ true
unfolding is_skipped output_of
output_of-skipped now left ip (ok (file, size)) e = ground (arith, e)
output_of-skipped now left ip (invalid_read why) e = ground (arith, e)

recover-skipped :
    (now left : ℕ) (ip : Dinode) (result : Read Saved) (r : Recovered)
    → Ends now ip result
    → is_skipped ip (recover now left ip result r).output ≡ true
unfolding recover
recover-skipped now left ip result r e = ground (arith, output_of-skipped now left ip result e)

-- After a save that ends with the size of the dinode, and also after one that fails later than the
-- file was created, every further recovery skips the file and leaves the output as it is, whatever
-- it could read.
pub recover-settles :
    (now left now' left' : ℕ) (ip : Dinode) (result result' : Read Saved) (r : Recovered)
    → Ends now ip result
    → recover now' left' ip result' (recover now left ip result r)
      ≡ record (recover now left ip result r) {
        skipped = (recover now left ip result r).skipped + 1;
      }
unfolding recover
recover-settles now left now' left' ip result result' r e =
    rw (recover-skipped now left ip result r e, recover) refl

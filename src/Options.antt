-- ===== src/Options.antt =====
-- src/options.h and src/options.cpp: which options must be given, and what the others default to.
-- What boost parses from the command line is an argument; paths and expressions are any types.
use jfsrec.Prelude.{ℕ, Bool, true, false, Option, none, some, ◌≡◌, ◌↔◌, if◌then◌else◌, arith}

-- `variables_map`: the options that stand on the command line.
pub record Given (File : Type 0) (Regex : Type 0) : Type 0 where
  pub help : Bool
  pub output : Option File
  pub logdir : Option File
  pub device : Option File
  pub blocksize : Option ℕ
  pub first : Option Regex
  pub last : Option Regex
  pub exclude : Option Regex
  pub skip_unsane_extents : Bool

pub record Options (File : Type 0) (Regex : Type 0) : Type 0 where
  pub blocksize : ℕ
  pub device : File
  pub output_dir : File
  pub progress_dir : File
  -- the expression, and whether it was given
  pub first : Option Regex
  pub last : Option Regex
  pub exclude : Option Regex
  pub skip_unsane_xads : Bool

abbrev pub is_speced {ℓ} : {A : Type ℓ} → Option A → Bool
is_speced none = false
is_speced (some a) = true

abbrev pub blocksize_or : Option ℕ → ℕ
blocksize_or none = 4096
blocksize_or (some b) = b

module _ {File : Type 0} {Regex : Type 0} where
  -- `none` is `exit(1)`.
  unfoldable pub init : Given File Regex → Option (Options File Regex)
  init g = if g.help then none else elim g.output [
    | none ↦ none
    | some output ↦ elim g.logdir [
      | none ↦ none
      | some logdir ↦ elim g.device [
        | none ↦ none
        | some device ↦ some (record {
          blocksize = blocksize_or g.blocksize;
          device = device;
          output_dir = output;
          progress_dir = logdir;
          first = g.first;
          last = g.last;
          exclude = g.exclude;
          skip_unsane_xads = g.skip_unsane_extents;
        })
      ]
    ]
  ]

  -- The options are taken exactly where no help is asked for and the output, the log directory and
  -- the device are given. They are then as they were given, and the block size is 4096 where none
  -- was; whether an expression was specified is whether it was given.
  pub init_iff :
      (g : Given File Regex) (o : Options File Regex)
      → (init g ≡ some o)
        ↔ (g.help ≡ false)
          × (g.output ≡ some o.output_dir)
          × (g.logdir ≡ some o.progress_dir)
          × (g.device ≡ some o.device)
          × (blocksize_or g.blocksize ≡ o.blocksize)
          × (g.first ≡ o.first)
          × (g.last ≡ o.last)
          × (g.exclude ≡ o.exclude)
          × (g.skip_unsane_extents ≡ o.skip_unsane_xads)
  unfolding init
  init_iff g o = (λ e. ground (arith, e), λ e. ground (arith, e))

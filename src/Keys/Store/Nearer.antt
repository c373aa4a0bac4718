-- ===== src/Keys/Store/Nearer.antt =====
-- `load_or_create` of crypto/keys.py: one operation brings a server nearer to its end.
use agent_oauth_from_scratch.Shared.{
  ℕ, ◌-◌, ◌≤◌, ◌≡◌, refl, ◌∙◌, String, Option, none, some, if◌then◌else◌, arith, true, false,
}
use agent_oauth_from_scratch.Outcome.{ok, raised}
use agent_oauth_from_scratch.Platform.{PrivateKey}
use agent_oauth_from_scratch.Keys.Store.{
  KeyFormat, load_private_key, Stage, begin, made, reading, missing, temporary, written, lost,
  clearing, returned, failed, Answer, os_error, success, finished, read_or, read_published, link,
  entered, advance,
}
use agent_oauth_from_scratch.Keys.Store.Race.{IsKept, IsPemFormat}

-- How many operations a server has before it at most.
abbrev pub rank : Stage → ℕ
rank begin = 8
rank made = 7
rank reading = 6
rank missing = 5
rank (temporary key) = 4
rank (written key) = 3
rank lost = 2
rank (clearing outcome) = 1
rank (returned key) = 0
rank (failed e) = 0

abbrev pub IsSuccess : Answer → Type 0
IsSuccess os_error = ⊥
IsSuccess (success drawn) = Unit

module _ (format : KeyFormat) (private_key_path : String) where
  -- There is no key file, or its key can be used.
  abbrev pub IsUsable : Option String → Type 0
  IsUsable none = Unit
  IsUsable (some pem) = (key : PrivateKey) × (load_private_key format pem ≡ ok key)

  -- A server has not failed, and has lost only to a key that is there.
  abbrev pub IsHealthy : Option String → Stage → Type 0
  IsHealthy file lost = (pem : String) × (file ≡ some pem)
  IsHealthy file (failed e) = ⊥
  IsHealthy file (clearing (ok key)) = Unit
  IsHealthy file (clearing (raised e)) = ⊥
  IsHealthy file _ = Unit

  pub record IsProgress (stage : Stage) (file : Option String) (next : Stage)
      (after : Option String) : Type 0 where
    pub usable : IsUsable after
    pub healthy : IsHealthy after next
    pub nearer : rank next ≤ rank stage - 1
    pub kept : IsKept format private_key_path file after

  read_or-IsProgress :
      (stage absent : Stage) (file : Option String)
      → IsUsable file
      → (file ≡ none → IsHealthy none absent)
      → rank absent ≤ rank stage - 1
      → IsProgress stage file (read_or format private_key_path absent file) file
  unfolding read_or finished
  read_or-IsProgress stage absent none usable healthy nearer = record {
    usable = tt;
    healthy = healthy refl;
    nearer = nearer;
    kept = tt;
  }
  read_or-IsProgress stage absent (some pem) (key, loads) healthy nearer =
      rw loads (record { usable = (key, loads); healthy = tt; nearer = omega arith; kept = refl })

  IsKept-refl : (file : Option String) → IsKept format private_key_path file file
  IsKept-refl none = tt
  IsKept-refl (some pem) = refl

  entered-IsProgress :
      (file : Option String)
      → IsUsable file
      → IsProgress begin file (entered format private_key_path) file
  unfolding entered
  entered-IsProgress file u =
      elim format.posix as (λ b. IsProgress begin file (if b then made else reading) file) [
        | true ↦ record { usable = u; healthy = tt; nearer = omega arith; kept = IsKept-refl file }
        | false ↦ record { usable = u; healthy = tt; nearer = omega arith; kept = IsKept-refl file }
      ]

  abbrev pub Goes : Stage → Option String → Stage × Option String → Type 0
  Goes stage file (next, after) = IsProgress stage file next after

  pub advance-IsProgress :
      IsPemFormat format private_key_path
      → (answer : Answer) (stage : Stage) (file : Option String) → IsSuccess answer
      → IsUsable file
      → IsHealthy file stage
      → Goes stage file (advance format private_key_path answer stage file)
  unfolding advance link read_published finished
  advance-IsProgress law os_error stage file s u h = absurd s
  advance-IsProgress law (success drawn) begin file s u h = entered-IsProgress file u
  advance-IsProgress law (success drawn) made file s u h = record {
    usable = u;
    healthy = tt;
    nearer = omega arith;
    kept = IsKept-refl file;
  }
  advance-IsProgress law (success drawn) reading file s u h =
      read_or-IsProgress reading missing file u (λ e. tt) (omega arith)
  advance-IsProgress law (success drawn) missing file s u h = record {
    usable = u;
    healthy = tt;
    nearer = omega arith;
    kept = IsKept-refl file;
  }
  advance-IsProgress law (success drawn) (temporary key) file s u h = record {
    usable = u;
    healthy = tt;
    nearer = omega arith;
    kept = IsKept-refl file;
  }
  advance-IsProgress law (success drawn) (written key) none s u h = record {
    usable = (key, law key);
    healthy = tt;
    nearer = omega arith;
    kept = tt;
  }
  advance-IsProgress law (success drawn) (written key) (some pem) s u h = record {
    usable = u;
    healthy = (pem, refl);
    nearer = omega arith;
    kept = refl;
  }
  advance-IsProgress law (success drawn) lost none s u (pem, there) = absurd (cc there)
  advance-IsProgress law (success drawn) lost (some pem) s (key, loads) h =
      rw loads (record { usable = (key, loads); healthy = tt; nearer = omega arith; kept = refl })
  advance-IsProgress law (success drawn) (clearing (ok key)) file s u h = record {
    usable = u;
    healthy = tt;
    nearer = omega arith;
    kept = IsKept-refl file;
  }
  advance-IsProgress law (success drawn) (clearing (raised e)) file s u h = absurd h
  advance-IsProgress law (success drawn) (returned key) file s u h = record {
    usable = u;
    healthy = tt;
    nearer = omega arith;
    kept = IsKept-refl file;
  }
  advance-IsProgress law (success drawn) (failed e) file s u h = absurd h

  pub IsHealthy-kept :
      (file after : Option String) (stage : Stage)
      → IsKept format private_key_path file after
      → IsHealthy file stage
      → IsHealthy after stage
  IsHealthy-kept none after lost k (pem, there) = absurd (cc there)
  IsHealthy-kept (some p) after lost k (pem, there) = (pem, k ∙ there)
  IsHealthy-kept file after (failed e) k h = h
  IsHealthy-kept file after (clearing (ok key)) k h = tt
  IsHealthy-kept file after (clearing (raised e)) k h = h
  IsHealthy-kept file after begin k h = tt
  IsHealthy-kept file after _ k h = tt

-- ===== src/Base/Clock.antt =====
-- Go's `time.Time`, from its zero value on: an instant in nanoseconds, 0 for the zero time, and the
-- location, which `==` on the struct compares too; 0 is UTC.
use Prim.Native.Nat.{ℕ}
use mathlib.Core.Bool.{Bool, ◌&&◌}
use goalrail.Base.Tests.{ltb, nat_eq}

pub record Time : Type 0 where
  pub instant : ℕ
  pub zone : ℕ

abbrev pub utc : Time → Time
utc t = record t { zone = 0 }

abbrev pub is_zero : Time → Bool
is_zero t = nat_eq t.instant 0

abbrev pub before : Time → Time → Bool
before s t = ltb s.instant t.instant

abbrev pub after : Time → Time → Bool
after s t = ltb t.instant s.instant

abbrev pub time_eq : Time → Time → Bool
time_eq s t = nat_eq s.instant t.instant && nat_eq s.zone t.zone

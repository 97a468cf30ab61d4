-- ===== src/Functions/Strings/Sound.antt =====
-- How `substring()` of scripts/kconfig/kconfigfunctions.py may end.
use ve_root.Base.{Option, none, some, Text}
use ve_root.Functions.{value_error}
use ve_root.Functions.Proper.{Sane, returned, Sane-bind, Sane-or_raise}
use ve_root.Functions.Numbers.{int_decimal}
use ve_root.Functions.Strings.{substring}

pub Sane-substring : (string start : Text) (stop : Option Text) → Sane (substring string start stop)
unfolding substring
Sane-substring string start none =
    Sane-bind (Sane-or_raise value_error (int_decimal start) tt) λ i. returned
Sane-substring string start (some stop) =
    Sane-bind (Sane-or_raise value_error (int_decimal start) tt)
      λ i. Sane-bind (Sane-or_raise value_error (int_decimal stop) tt) λ j. returned

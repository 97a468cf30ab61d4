-- ===== src/Kconfig/Merge/Writes.antt =====
-- The output of `main()`, in scripts/kconfig/kconfig.py.
use ve_root.Base.{Every, Option-cases, ◌≡◌, refl, inl, inr, some, List, [], ◌∷◌, ◌++◌, map}
use ve_root.Kconfig.{
  Text, Kconfiglib, Event, prints, writes_config, writes_header, writes_list, Run, returns, exits,
  raises, after, ◌>>=◌,
}
use ve_root.Kconfig.Merge.{
  Args, write_kconfig_filenames, write, prepare, write_outputs, main, sorted_set,
}
use ve_root.Kconfig.Quiet.{IsQuiet, QuietRun}
use ve_root.Kconfig.Merge.Quiet.{AreTolerated, prepare-Quiet}

module _ {Expr Kconf : Type 0} (lib : Kconfiglib Expr Kconf) where
  -- The output for a configuration: what is written and printed, in order.
  pub record IsOutput (args : Args) (kconf : Kconf) (es : List (Event Expr)) : Type 0 where
    pub config_text : Text
    pub header_text : Text
    pub config_written : Kconf
    pub header_written : Kconf
    pub config : lib.write_config kconf args.config_out ≡ some (config_text, config_written)
    pub header :
        lib.write_autoconf config_written args.header_out ≡ some (header_text, header_written)
    pub events :
        es
        ≡ writes_config args.config_out
          ∷ (prints config_text
              ∷ (writes_header args.header_out
                  ∷ (prints header_text
                      ∷ (writes_list args.kconfig_list_out (
                            sorted_set (
                              map
                                (lib.real_path header_written)
                                (lib.kconfig_filenames header_written)))
                          ∷ []))))

  -- The run wrote no file before its output, and made that from a configuration whose warnings are
  -- tolerated. A run that ends with an error message wrote no file.
  abbrev pub Writes : Args → Run Expr (Unit {0}) → Type 0
  Writes args (returns es _) =
      (kconf : Kconf) × (before : List (Event Expr)) × (output : List (Event Expr)) × (es
        ≡ before ++ output)
      × Every (IsQuiet lib) before
      × AreTolerated lib args (lib.warnings kconf)
      × IsOutput args kconf output
  Writes args (exits es m) = Every (IsQuiet lib) es
  Writes args (raises es) = Unit

  write_outputs-Writes :
      (args : Args) (kconf : Kconf) (before : List (Event Expr))
      → Every (IsQuiet lib) before
      → AreTolerated lib args (lib.warnings kconf)
      → Writes args (after before (write_outputs lib args kconf))
  unfolding write_outputs write write_kconfig_filenames
  write_outputs-Writes args kconf before quiet tolerated =
      elim (Option-cases (lib.write_config kconf args.config_out)) [
        | inl e ↦ rw e tt
        | inr (r, e) ↦ elim (Option-cases (lib.write_autoconf r.1 args.header_out)) [
          | inl e' ↦ rw (e, e') tt
          | inr (h, e') ↦ elim (Option-cases (lib.open_list h.1 args.kconfig_list_out)) [
            | inl o ↦ rw (e, e', o) tt
            | inr (_, o) ↦
                rw (e, e', o)
                  (
                    kconf,
                    before,
                    _,
                    refl,
                    quiet,
                    tolerated,
                    record {
                      config_text = r.0;
                      header_text = h.0;
                      config_written = r.1;
                      header_written = h.1;
                      config = e;
                      header = e';
                      events = refl;
                    },
                  )
          ]
        ]
      ]

  then_write-Writes :
      (args : Args) (m : Run Expr Kconf)
      → QuietRun lib (λ kconf. AreTolerated lib args (lib.warnings kconf)) m
      → Writes args (m >>= write_outputs lib args)
  then_write-Writes args (returns es kconf) h = write_outputs-Writes args kconf es h.0 h.1
  then_write-Writes args (exits es m) h = h
  then_write-Writes args (raises es) h = tt

  -- If the script ends without an error, then before its output it wrote no file but the null
  -- device, the warnings of the configuration that it wrote were tolerated, and it wrote that
  -- configuration, then the header, then the sorted list of files. If it ends with an error message,
  -- it wrote no file but the null device.
  pub main-Writes : (args : Args) → Writes args (main lib args)
  unfolding main
  main-Writes args = then_write-Writes args (prepare lib args) (prepare-Quiet lib args)

-- ===== src/Scripts/Lint/Checks/Commands.antt =====
-- The programs that scripts/kconfig/lint.py runs for `check_missing_config_prefix()`.
use mathlib.Core.List.{append-nil}
use ve_root.Base.{arith, ◌≡◌, refl, ap, true, false, some, List, [], ◌∷◌, ◌++◌, Text, codes}
use ve_root.Scripts.{Run, returns, ◌>>=◌, emit, pure}
use ve_root.Scripts.Lint.{
  Sym, Kconf, Output, System, Event, prints, wrote_to_stderr, runs, Fault, run, take_output,
  warn_stderr, is_zero,
}
use ve_root.Scripts.Lint.Search.{splitlines, find_defines}
use ve_root.Scripts.Lint.Lists.{split_list, filter, for_each, gather}
use ve_root.Scripts.Lint.Lists.Batches.{concat, IsEven, split_list-IsEven}
use ve_root.Scripts.Lint.Checks.{
  print_header, module_paths, define_grep, defined_in_module, batch_grep, search_batch, undefined,
  check_missing_config_prefix,
}

-- A command with its directory.
abbrev pub Command : Type 0
Command = List Text × Text

abbrev pub commands : List Event → List Command
commands [] = []
commands (runs cmd cwd ∷ es) = (cmd, cwd) ∷ commands es
commands (prints t ∷ es) = commands es
commands (wrote_to_stderr cmd t ∷ es) = commands es

-- One command in several directories.
abbrev pub everywhere : List Text → List Text → List Command
everywhere cmd [] = []
everywhere cmd (path ∷ paths) = (cmd, path) ∷ everywhere cmd paths

abbrev pub batch_commands : List Text → List (List Sym) → List Command
batch_commands paths [] = []
batch_commands paths (batch ∷ batches) =
    everywhere (batch_grep batch) paths ++ batch_commands paths batches

commands-append : (es fs : List Event) → commands (es ++ fs) ≡ commands es ++ commands fs
commands-append [] fs = refl
commands-append (runs cmd cwd ∷ es) fs = ap ((cmd, cwd) ∷◌) (commands-append es fs)
commands-append (prints t ∷ es) fs = commands-append es fs
commands-append (wrote_to_stderr cmd t ∷ es) fs = commands-append es fs

-- The run returns this, after these commands.
abbrev pub Does : {A : Type 0} → Run Event Fault A → List Command → A → Type 0
Does r cs a = (es : List Event) × (r ≡ returns es a) × (commands es ≡ cs)

Does-bind :
    {A B : Type 0} (m : Run Event Fault A) (f : A → Run Event Fault B) {cs ds : List Command}
    (a : A) {b : B}
    → Does m cs a
    → Does (f a) ds b
    → Does (m >>= f) (cs ++ ds) b
Does-bind m f a (es, e, c) (fs, e', d) = (es ++ fs, rw (e, e'), rw (commands-append es fs, c, d))

Does-map :
    {A B : Type 0} (m : Run Event Fault A) (g : A → B) {cs : List Command} (a : A)
    → Does m cs a
    → Does (m >>= λ x. pure (g x)) cs (g a)
Does-map m g a (es, e, c) = (es, rw (e, append-nil es), c)

commands-warn_stderr : (cmd : List Text) (t : Text) → commands (warn_stderr cmd t) ≡ []
commands-warn_stderr cmd [] = refl
commands-warn_stderr cmd (c ∷ t) = refl

-- All programs can be started, and write UTF-8 to the standard error.
abbrev pub IsRunning : System → Type 0
IsRunning system =
    (cmd : List Text) (cwd : Text)
    → (out : Output) × (err : Text) × (system.popen cmd cwd ≡ some out) × (out.stderr ≡ some err)

abbrev pub west_list : List Text
west_list = codes "west" ∷ codes "list" ∷ codes "-f{abspath}" ∷ []

module _ (system : System) (running : IsRunning system) where
  abbrev pub output : List Text → Text → Output
  output cmd cwd = (running cmd cwd).0

  Does-run :
      (cmd : List Text) (cwd : Text)
      → Does (run system cmd cwd false) ((cmd, cwd) ∷ []) (output cmd cwd).stdout
  unfolding run take_output
  Does-run cmd cwd =
      let (out, err, e, e') = running cmd cwd in
      (
        runs cmd cwd ∷ warn_stderr cmd err,
        rw (e, e'),
        ap ((cmd, cwd) ∷◌) (commands-warn_stderr cmd err),
      )

  Does-west :
      is_zero (output west_list system.top_dir).status ≡ true
      → Does
          (module_paths system)
          ((west_list, system.top_dir) ∷ [])
          (splitlines (output west_list system.top_dir).stdout)
  unfolding module_paths run take_output
  Does-west success =
      let (out, err, e, e') = running west_list system.top_dir in
      Does-map (run system west_list system.top_dir true) splitlines out.stdout (
        runs west_list system.top_dir ∷ warn_stderr west_list err,
        rw (e, e', success),
        ap ((west_list, system.top_dir) ∷◌) (commands-warn_stderr west_list err),
      )

  -- The names that are defined in the modules.
  abbrev pub defines : List Text → List Text
  defines [] = []
  defines (path ∷ paths) =
      find_defines system.is_word system.is_space (output define_grep path).stdout ++ defines paths

  Does-defined :
      (paths : List Text)
      → Does
          (gather (defined_in_module system) paths)
          (everywhere define_grep paths)
          (defines paths)
  unfolding gather defined_in_module
  Does-defined [] = ([], refl, refl)
  Does-defined (path ∷ paths) =
      Does-bind (defined_in_module system path) _
        (find_defines system.is_word system.is_space (output define_grep path).stdout)
        (Does-map (run system define_grep path false) (find_defines system.is_word system.is_space)
          (output define_grep path).stdout (Does-run define_grep path))
        (Does-map (gather (defined_in_module system) paths) _ (defines paths) (Does-defined paths))

  Does-batch :
      (batch : List Sym) (paths : List Text)
      → Does (search_batch system paths batch) (everywhere (batch_grep batch) paths) tt
  unfolding search_batch for_each
  Does-batch batch [] = ([], refl, refl)
  Does-batch batch (path ∷ paths) =
      let cmd = batch_grep batch in
      let (es, e, c) = Does-run cmd path in
      Does-bind (run system cmd path false >>= λ out. emit (prints out)) _ {cs = (cmd, path) ∷ []}
        tt
        (
          es ++ (prints (output cmd path).stdout ∷ []),
          rw e,
          rw (commands-append es (prints (output cmd path).stdout ∷ []), c),
        )
        (Does-batch batch paths)

  Does-batches :
      (paths : List Text) (batches : List (List Sym))
      → Does (for_each (search_batch system paths) batches) (batch_commands paths batches) tt
  unfolding for_each
  Does-batches paths [] = ([], refl, refl)
  Does-batches paths (batch ∷ batches) =
      Does-bind (search_batch system paths batch) _ tt (Does-batch batch paths)
        (Does-batches paths batches)

  -- If all programs can be started and write UTF-8 to the standard error, and the list of modules
  -- can be made, the check for missing prefixes comes to its end, and the programs that it runs
  -- are the one for the modules, a search for macros in each module, and for each of some batches
  -- a search in each module; the batches give the symbols that are not defined as macros, in
  -- order, and all of them have 200 symbols but the last one, which has no more.
  pub check_missing_config_prefix_lem :
      (kconf : Kconf)
      → is_zero (output west_list system.top_dir).status ≡ true
      → let paths = splitlines (output west_list system.top_dir).stdout in
        let syms = filter (undefined (defines paths)) kconf.unique_defined_syms in
        (batches : List (List Sym)) × Does
          (check_missing_config_prefix system kconf)
          ((west_list, system.top_dir)
            ∷ (everywhere define_grep paths ++ batch_commands paths batches))
          tt
        × (concat batches ≡ syms)
        × IsEven 200 batches
  unfolding check_missing_config_prefix print_header
  check_missing_config_prefix_lem kconf success =
      let paths = splitlines (output west_list system.top_dir).stdout in
      let syms = filter (undefined (defines paths)) kconf.unique_defined_syms in
      let batches = split_list syms 200 in
      let search : List Text → List Text → Run Event Fault (Unit {0}) = λ modpaths defined.
        for_each (search_batch system modpaths)
          (split_list (filter (undefined defined) kconf.unique_defined_syms) 200) in
      let from_paths : List Text → Run Event Fault (Unit {0}) =
        λ modpaths. gather (defined_in_module system) modpaths >>= search modpaths in
      let title = codes "Symbol references that might be missing a CONFIG_ prefix" in
      let (whole, even) = split_list-IsEven syms 200 (omega arith) in
      (
        batches,
        Does-bind (print_header title) (λ _. module_paths system >>= from_paths) {cs = []} tt
            (_, refl, refl)
            (Does-bind (module_paths system) from_paths paths (Does-west success) (
              Does-bind (gather (defined_in_module system) paths) (search paths) (defines paths)
                (Does-defined paths) (Does-batches paths batches))),
        whole,
        even,
      )

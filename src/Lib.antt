-- ===== src/Lib.antt =====
-- A verification library for the Python programs that configure ve-root.
--
-- scripts/kconfig/menuconfig.py is the terminal interface in which the configuration is edited,
-- scripts/kconfig/guiconfig.py is the same interface on Tk, scripts/kconfig/kconfig.py is the
-- script that merges configuration files into the configuration of a build, and
-- scripts/kconfig/kconfigfunctions.py has functions that Kconfig files call.
-- scripts/kconfig/lint.py and scripts/kconfig/hardenconfig.py check the Kconfig files and a
-- configuration, and scripts/version-parse.py compares two versions. All but the last stand on
-- Kconfiglib (scripts/kconfig/kconfiglib.py, a copy of that library), which is not modelled: what
-- the programs ask of it are parameters.
--
-- Base has the names that all modules share: lists and texts (lists of code points) over the
-- native numbers, integers, tests, and lemmas on optional results. Base/Sort is the stable sort
-- by texts.
--
-- Menuconfig models scripts/kconfig/menuconfig.py:
-- - Nodes: the menu tree and the configuration as kconfiglib shows them. `Tree` is what does not
--   change; `Conf` is a snapshot of the values, which setting a value replaces.
-- - Shown: `_shown_nodes()` and `_visible()`, the entries that a menu shows. Shown/ShowAll
--   compares the two modes.
-- - Keys and Edit: the keys of `_getch_compat()`, and `_edit_text()` with all its keys.
--   Edit/Word, Edit/Cursor and Edit/Undo have the theorems.
-- - State: the global variables of the main display, the moves of the cursor and
--   `_resize_main()`. The height of the window is part of the state.
-- - Navigate: `_enter_menu()`, `_leave_menu()`, `_update_menu()`, `_toggle_show_all()` and
--   `_jump_to()`; the modules below it have the theorems, of which Navigate/Frame is about what
--   these leave alone.
-- - Session: the globals with the keys that are to come, and the monad of operations that read
--   keys. An operation returns, waits for a key when none is left, or raises an exception that
--   the source does not catch.
-- - Values and Change: `_changeable()`, `_check_valid()`, `_set_val()`,
--   `_set_sel_node_tri_val()`, `_needs_save()` and `_change_node()`.
-- - Dialogs: `_key_dialog()`, `_input_dialog()`, `_quit_dialog()`, `_load_dialog()` and
--   `_save_dialog()`.
-- - Listing: `_sorted_sc_nodes()` and `_sorted_menu_comment_nodes()`, the nodes that the dialogs
--   search; `World` has these lists as parameters. The sort is `sorted()` of Python, in
--   Base/Sort.
-- - Search and Fullscreen: `_jump_to_dialog()` and `_info_dialog()`.
-- - Main: `_menuconfig()`, the loop over all keys.
-- - Texts: `_value_str()` and `_node_str()`, the texts of the entries.
-- - Colors: the approximations of RGB colours and the palette entries that are redefined.
-- - Tests: a small menu tree, and runs on it.
--
-- `World` in Menuconfig/Session collects what the interface asks of others: kconfiglib (setting,
-- loading and writing values), the standard library (`int()`, `str.lower()`, `str.split()`,
-- regular expressions, expansion of paths) and curses (the erase character). A write or a load
-- either succeeds or fails with an error that the source catches. The field `on_disk` of a
-- session is no variable of the program: it notes the configuration that was last loaded, or
-- written with all its values.
--
-- The loops that read keys are recursive on fuel, the number of keys that are left and one more.
-- Each round reads a key, so that this is enough; the outcome `exhausted` stands for fuel that
-- was too little, and for no behaviour of the program.
--
-- A session is sound (`IsSound` in Menuconfig/Session/Post) if the selected entry exists and the
-- window shows it, and if the values are those of the file whenever the program holds them for
-- unchanged.
--
-- Kconfig models scripts/kconfig/kconfig.py: Kconfig has the parameters and the runs of a script,
-- which are lists of events (printing, warning, writing) that end with a result, with `err()` or
-- with another exception. Kconfig/Checks has the checks, and Kconfig/Merge `main()`; the modules
-- below them have the theorems. A message is given by its data, not by its text.
--
-- Functions models scripts/kconfig/kconfigfunctions.py, the functions that Kconfig files call;
-- their arguments are texts, and their results are texts or, in one function, the value of a
-- property:
-- - Numbers and Lists: `int()`, `str()`, `hex()`, `str.split()` and `str.join()` of Python, as
--   the functions use them; the round trips are below them. The digits of a number are written on
--   fuel, the number and one more, which is enough in any base from 2 on.
-- - Arith and Strings: `arith()`, `inc_dec()`, `normalize_upper()`, `shields_list_contains()` and
--   `substring()`. Floats are a parameter: how Python divides to one and converts one to an
--   integer.
-- - Devicetree: the devicetree, a parameter with what the functions ask of edtlib, which is not
--   in the repository; it is `none` in the documentation mode and where there is no devicetree.
-- - Nodes, Regs, Props and Compats: the functions whose names start with `dt_`. They do not
--   change the devicetree, but for `after_enabled_num`, the dictionary that
--   `dt_compat_enabled_num()` leaves.
-- - Entry and Table: the table `functions`, with the number of arguments of each function.
-- - Proper: how a function may end. The modules of that name below the others apply it.
--
-- Guiconfig models scripts/kconfig/guiconfig.py, over the menu tree, the values and `World` of
-- Menuconfig:
-- - Shown: `_shown_full_nodes()` and `_shown_menu_nodes()`. The modules below it have their
--   order, sizes and relation.
-- - View: the items of the Treeview and `_update_tree()`, `_build_full_tree()`,
--   `_build_menu_tree()` and `_add_to_tree()`. The recursion of `_build_full_tree()` is on fuel,
--   the number of nodes below the menu and one more, which View/Ends shows to be enough.
-- - Window: the globals of the script, and the monad of its callbacks. A callback returns, waits
--   for a dialog that is not answered further, or raises an exception, which Tk prints; the
--   window then lives on as it is, so that `raises` has a window, too.
-- - Scroll: `_vis_loc_ref_item()`, the item by which `_do_showall()` keeps the scroll, which
--   raises an exception where there is none. The items that an item hangs below are listed on
--   fuel, the number of items, which is enough since in Tk no item hangs below itself.
-- - Files, Change and Moves: the callbacks of files, values, modes and menus.
-- - Matches and Images: `_update_jump_to_matches()` and `_img_tag()`. The modules below them
--   compare these with menuconfig.py.
-- - Main: `menuconfig()` up to the main loop, and the main loop over what the user does. An
--   action has the answers to the dialogs that it opens.
-- - Tests: a small menu tree, and runs on it.
-- A window is sound (`IsSound` in Guiconfig/Window/Post) if in single-menu mode its tree is the
-- one of the current values, with or without show-all mode, or has no items, and if the values
-- are those of the file whenever the script holds them for unchanged. The tree has no items where
-- a change hides every node of the current menu; `with_ref_item` is the exception that then comes
-- from `_loc_ref_item()`, and its window. The tree is the one of the other mode where
-- `_do_showall()` raises an exception before it updates the tree. The menu tree is taken to have
-- consistent links (`IsMenuTree`): a node has its parent as the link, is found by its identity,
-- and stands in a menu.
--
-- Scripts models three short scripts, whose runs are lists of events that end with a result or an
-- exception:
-- - Harden: scripts/kconfig/hardenconfig.py, over the symbols of kconfiglib and the rows of its
--   table.
-- - Lint: scripts/kconfig/lint.py. Lint has `run()`, over a parameter that says what each program
--   gives, its standard error being none if it is not UTF-8; Search the regular expressions as
--   functions; Lists the batches of `split_list()`, on fuel, of which the length of the list is
--   enough; and Checks the five checks and `main()`.
-- - Version: scripts/version-parse.py, over the versions of the library packaging.
--
-- Not modelled: drawing, styles and the information texts of scripts/kconfig/menuconfig.py; the
-- widgets, the texts and the scroll of scripts/kconfig/guiconfig.py; reading the pickled
-- devicetree of scripts/kconfig/kconfigfunctions.py; the bound of CPython on the digits of an
-- integer that is converted from or to a text; the scripts of the layers that only call other
-- libraries (layers/debian/.scripts/rootfspatch/generate.py, layers/debian/bootramfs/query.py);
-- and the makefiles.
pub mod Base
pub mod Functions
pub mod Kconfig
pub mod Guiconfig
pub mod Menuconfig
pub mod Scripts

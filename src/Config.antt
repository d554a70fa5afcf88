-- ===== src/Config.antt =====
-- The tables of Config.h: functions that handle errors, copy values or fetch data from outside, and
-- LoadStaticData of Analyzer.cc.
use Prim.Native.String.{String, len}
use text.Mathlib.Text.{◌==◌ as str_eq}
use crix.Base.{Option, none, some, List, [], ◌∷◌, if◌then◌else◌, ltb, ℤ, pos, negsuc}
use crix.Ir.Kinds.{has_name}

-- set<string>::insert
abbrev pub insert_name : String → List String → List String
insert_name s names = if has_name s names then names else s ∷ names

unfoldable pub insert_names : List String → List String → List String
insert_names [] names = names
insert_names (s ∷ ss) names = insert_names ss (insert_name s names)

-- The lines of the file, of more than one character.
unfoldable pub insert_lines : List String → List String → List String
insert_lines [] names = names
insert_lines (line ∷ lines) names =
    insert_lines lines (if ltb 1 (len line) then insert_name line names else names)

-- ErrorHandleFN
abbrev pub error_handle_fn : List String
error_handle_fn =
    "BUG" ∷ "BUG_ON" ∷ "ASM_BUG" ∷ "panic" ∷ "ASSERT" ∷ "assert" ∷ "dump_stack" ∷ "__warn_printk"
    ∷ "usercopy_warn" ∷ "signal_fault" ∷ "pr_err" ∷ "pr_warn" ∷ "pr_warning" ∷ "pr_alert"
    ∷ "pr_emerg" ∷ "pr_crit" ∷ []

-- SetErrorHandleFuncs, with the lines of configs/err-funcs, if that file is open.
unfoldable pub set_error_handle_funcs : Option (List String) → List String → List String
unfolding insert_names insert_lines
set_error_handle_funcs none names = insert_names error_handle_fn names
set_error_handle_funcs (some lines) names = insert_names error_handle_fn (insert_lines lines names)

-- `m[k] = v` by name.
unfoldable pub assign {ℓ} : {A : Type ℓ} → String → A → List (String × A) → List (String × A)
assign k v [] = (k, v) ∷ []
assign k v ((j, w) ∷ m) = if str_eq k j then (j, v) ∷ m else (j, w) ∷ assign k v m

unfoldable pub assign_all {ℓ} :
    {A : Type ℓ} → List (String × A) → List (String × A) → List (String × A)
unfolding assign
assign_all [] m = m
assign_all ((k, v) ∷ rest) m = assign_all rest (assign k v m)

-- The assignments of SetCopyFuncs: source, destination and size.
abbrev pub copy_table : List (String × (ℤ × ℤ × ℤ))
copy_table =
    ("memcpy", (pos 1, pos 0, pos 2))
    ∷ ("__memcpy", (pos 1, pos 0, pos 2))
    ∷ ("llvm.memcpy.p0i8.p0i8.i32", (pos 1, pos 0, pos 2))
    ∷ ("llvm.memcpy.p0i8.p0i8.i64", (pos 1, pos 0, pos 2))
    ∷ ("strncpy", (pos 1, pos 0, pos 2))
    ∷ ("memmove", (pos 1, pos 0, pos 2))
    ∷ ("__memmove", (pos 1, pos 0, pos 2))
    ∷ ("llvm.memmove.p0i8.p0i8.i32", (pos 1, pos 0, pos 2))
    ∷ ("llvm.memmove.p0i8.p0i8.i64", (pos 1, pos 0, pos 2))
    ∷ []

-- The assignments of SetDataFetchFuncs: destination and source.
abbrev pub data_fetch_table : List (String × (ℤ × ℤ))
data_fetch_table =
    ("copy_from_user", (pos 0, pos 1))
    ∷ ("_copy_from_user", (pos 0, pos 1))
    ∷ ("__copy_from_user", (pos 0, pos 1))
    ∷ ("raw_copy_from_user", (pos 0, pos 1))
    ∷ ("strncpy_from_user", (pos 0, pos 1))
    ∷ ("_strncpy_from_user", (pos 0, pos 1))
    ∷ ("__strncpy_from_user", (pos 0, pos 1))
    ∷ ("__copy_from_user_inatomic", (pos 0, pos 1))
    ∷ ("strndup_user", (negsuc 0, pos 0))
    ∷ ("memdup_user", (negsuc 0, pos 0))
    ∷ ("vmemdup_user", (negsuc 0, pos 0))
    ∷ ("memdup_user_nul", (negsuc 0, pos 0))
    ∷ ("get_user", (pos 0, pos 1))
    ∷ ("__get_user", (pos 0, pos 1))
    ∷ ("copyin", (pos 1, pos 0))
    ∷ ("copyin_str", (pos 1, pos 0))
    ∷ ("copyin_nofault", (pos 1, pos 0))
    ∷ ("fubyte", (negsuc 0, pos 0))
    ∷ ("fusword", (negsuc 0, pos 0))
    ∷ ("fuswintr", (negsuc 0, pos 0))
    ∷ ("fuword", (negsuc 0, pos 0))
    ∷ ("rds_message_copy_from_user", (pos 0, pos 1))
    ∷ ("ivtv_buf_copy_from_user", (pos 0, pos 1))
    ∷ ("snd_trident_synth_copy_from_user", (pos 0, pos 1))
    ∷ ("copy_from_user_toio", (pos 0, pos 1))
    ∷ ("iov_iter_copy_from_user_atomic", (pos 0, pos 1))
    ∷ ("__generic_copy_from_user", (pos 0, pos 1))
    ∷ ("__constant_copy_from_user", (pos 0, pos 1))
    ∷ ("copy_from_user_page", (pos 0, pos 1))
    ∷ ("__copy_from_user_eva", (pos 0, pos 1))
    ∷ ("__arch_copy_from_user", (pos 0, pos 1))
    ∷ ("__copy_from_user_flushcache", (pos 0, pos 1))
    ∷ ("arm_copy_from_user", (pos 0, pos 1))
    ∷ ("__asm_copy_from_user", (pos 0, pos 1))
    ∷ ("__copy_from_user_inatomic_nocache", (pos 0, pos 1))
    ∷ ("copy_from_user_nmi", (pos 0, pos 1))
    ∷ ("copy_from_user_proc", (pos 0, pos 1))
    ∷ []

unfoldable pub set_copy_funcs : List (String × (ℤ × ℤ × ℤ)) → List (String × (ℤ × ℤ × ℤ))
unfolding assign_all
set_copy_funcs = assign_all copy_table

unfoldable pub set_data_fetch_funcs : List (String × (ℤ × ℤ)) → List (String × (ℤ × ℤ))
unfolding assign_all
set_data_fetch_funcs = assign_all data_fetch_table

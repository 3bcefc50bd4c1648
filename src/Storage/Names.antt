-- ===== src/Storage/Names.antt =====
-- `sanitize_file_name` and `sanitize_path_component` of src/quick_share_receiver.rs.
use hi_rodrop.Prelude.{
  ℕ, Bool, true, some, List, [], ◌∷◌, ◌++◌, ◌&&◌, ◌||◌, not, leb, ltb, ◌==◌, if◌then◌else◌, Result,
  ok, err, ok_or, keep_if, ◌>>=◌, map,
}
use hi_rodrop.Prelude.Bytes.{eq_bytes}
use hi_rodrop.Prelude.Utf8.{Text}
use hi_rodrop.Receiver.Errors.{ReceiveError}

-- `'/'` and `'\\'`
abbrev pub is_separator : ℕ → Bool
is_separator c = (c == 47) || (c == 92)

-- `char::is_control`
abbrev pub is_control : ℕ → Bool
is_control c = ltb c 32 || leb 127 c && leb c 159

-- `char::is_whitespace`, by which `trim` works
abbrev pub is_whitespace : ℕ → Bool
is_whitespace c =
    leb 9 c && leb c 13
    || ((c == 0x20)
        || ((c == 0x85)
            || ((c == 0xA0)
                || ((c == 0x1680)
                    || (leb 0x2000 c && leb c 0x200A
                        || ((c == 0x2028)
                            || ((c == 0x2029)
                                || ((c == 0x202F) || ((c == 0x205F) || (c == 0x3000))))))))))

-- `< > : " / \ | ? *`
abbrev pub is_forbidden : ℕ → Bool
is_forbidden c =
    (c == 60)
    || ((c == 62)
        || ((c == 58)
            || ((c == 34)
                || ((c == 47) || ((c == 92) || ((c == 124) || ((c == 63) || (c == 42))))))))

unfoldable pub replace_char : ℕ → ℕ
replace_char c = if is_control c || is_forbidden c then 95 else c

-- `trim().is_empty()`
unfoldable pub is_blank : Text → Bool
is_blank [] = true
is_blank (c ∷ cs) = is_whitespace c && is_blank cs

-- `value.is_empty() || value == "." || value == ".."`
abbrev pub is_dots : Text → Bool
is_dots s = eq_bytes s [] || (eq_bytes s (46 ∷ []) || eq_bytes s (46 ∷ 46 ∷ []))

unfoldable pub sanitize_path_component : Text → Result ReceiveError Text
sanitize_path_component component =
    if is_dots component
    then err ReceiveError.unsafe_metadata
    else let sanitized = map replace_char component in
      if is_blank sanitized then err ReceiveError.unsafe_metadata else ok sanitized

-- `rsplit(['/', '\\']).next()`: what stands behind the last separator
unfoldable pub last_segment : Text → Text → Text
last_segment current [] = current
last_segment current (c ∷ cs) = last_segment (if is_separator c then [] else current ++ c ∷ []) cs

unfoldable pub sanitize_file_name : Text → Result ReceiveError Text
unfolding last_segment
sanitize_file_name name = do
  leaf ←
      ok_or (keep_if (λ value. not (is_dots value)) (some (last_segment [] name)))
        ReceiveError.unsafe_metadata
  sanitize_path_component leaf

-- `split(['/', '\\'])`
unfoldable pub split : Text → Text → List Text
split current [] = current ∷ []
split current (c ∷ cs) =
    let here = current ∷ split [] cs in
    let on = split (current ++ c ∷ []) cs in if is_separator c then here else on

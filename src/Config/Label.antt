-- ===== src/Config/Label.antt =====
-- src/config.rs, `valid_launchd_label`, with `char::is_control` and `char::is_whitespace`.
use roused.Base.{ℕ, Bool, not, ◌&&◌, ◌||◌, ◌==◌, ltb, leb, all}
use roused.Base.Text.{Text, is_empty}

-- The general category Cc.
unfoldable pub is_control : ℕ → Bool
is_control c = ltb c 0x20 || (leb 0x7f c && leb c 0x9f)

-- The property White_Space.
unfoldable pub is_whitespace : ℕ → Bool
is_whitespace c =
    (leb 0x9 c && leb c 0xd)
    || (c == 0x20
        || (c == 0x85
            || (c == 0xa0
                || (c == 0x1680
                    || ((leb 0x2000 c && leb c 0x200a)
                        || (c == 0x2028
                            || (c == 0x2029 || (c == 0x202f || (c == 0x205f || c == 0x3000)))))))))

unfoldable pub valid_launchd_label : Text → Bool
unfolding is_control is_whitespace
valid_launchd_label label =
    not (is_empty label)
    && all (λ c. not (c == b'/') && (not (is_control c) && not (is_whitespace c))) label

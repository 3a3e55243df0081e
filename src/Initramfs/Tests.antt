-- ===== src/Initramfs/Tests.antt =====
-- A witness for the numbers of a header.
use mazuki_os.Base.{◌≡◌, arith, some, ◌++◌, codes}
use mazuki_os.Initramfs.{parse_hex_ascii}
use mazuki_os.Initramfs.Hex.{hex_text, parse_hex_ascii-hex_text}

parse_hex_ascii-hex_text_example :
    parse_hex_ascii (hex_text 8 0xDEADBEEF ++ codes "0000") 8 ≡ some 0xDEADBEEF
parse_hex_ascii-hex_text_example = parse_hex_ascii-hex_text 0xDEADBEEF (codes "0000") (omega arith)

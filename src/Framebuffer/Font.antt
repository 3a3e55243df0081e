-- ===== src/Framebuffer/Font.antt =====
-- The font of framebuffer.h and the choice of a picture in `framebuffer_draw_char`.
use mazuki_os.Base.{ℕ, ◌-◌, ◌&&◌, List, [], ◌∷◌, leb, ◌==◌, if◌then◌else◌, get_or}

-- The two tables of the font, seven lines for a character.
unfoldable pub font_letters : List (List ℕ)
font_letters =
    (14 ∷ 17 ∷ 17 ∷ 31 ∷ 17 ∷ 17 ∷ 17 ∷ [])
    ∷ (30 ∷ 17 ∷ 17 ∷ 30 ∷ 17 ∷ 17 ∷ 30 ∷ [])
    ∷ (14 ∷ 17 ∷ 16 ∷ 16 ∷ 16 ∷ 17 ∷ 14 ∷ [])
    ∷ (30 ∷ 17 ∷ 17 ∷ 17 ∷ 17 ∷ 17 ∷ 30 ∷ [])
    ∷ (31 ∷ 16 ∷ 16 ∷ 30 ∷ 16 ∷ 16 ∷ 31 ∷ [])
    ∷ (31 ∷ 16 ∷ 16 ∷ 30 ∷ 16 ∷ 16 ∷ 16 ∷ [])
    ∷ (14 ∷ 17 ∷ 16 ∷ 23 ∷ 17 ∷ 17 ∷ 15 ∷ [])
    ∷ (17 ∷ 17 ∷ 17 ∷ 31 ∷ 17 ∷ 17 ∷ 17 ∷ [])
    ∷ (14 ∷ 4 ∷ 4 ∷ 4 ∷ 4 ∷ 4 ∷ 14 ∷ [])
    ∷ (1 ∷ 1 ∷ 1 ∷ 1 ∷ 17 ∷ 17 ∷ 14 ∷ [])
    ∷ (17 ∷ 18 ∷ 20 ∷ 24 ∷ 20 ∷ 18 ∷ 17 ∷ [])
    ∷ (16 ∷ 16 ∷ 16 ∷ 16 ∷ 16 ∷ 16 ∷ 31 ∷ [])
    ∷ (17 ∷ 27 ∷ 21 ∷ 21 ∷ 17 ∷ 17 ∷ 17 ∷ [])
    ∷ (17 ∷ 25 ∷ 21 ∷ 19 ∷ 17 ∷ 17 ∷ 17 ∷ [])
    ∷ (14 ∷ 17 ∷ 17 ∷ 17 ∷ 17 ∷ 17 ∷ 14 ∷ [])
    ∷ (30 ∷ 17 ∷ 17 ∷ 30 ∷ 16 ∷ 16 ∷ 16 ∷ [])
    ∷ (14 ∷ 17 ∷ 17 ∷ 17 ∷ 21 ∷ 18 ∷ 13 ∷ [])
    ∷ (30 ∷ 17 ∷ 17 ∷ 30 ∷ 20 ∷ 18 ∷ 17 ∷ [])
    ∷ (15 ∷ 16 ∷ 16 ∷ 14 ∷ 1 ∷ 1 ∷ 30 ∷ [])
    ∷ (31 ∷ 4 ∷ 4 ∷ 4 ∷ 4 ∷ 4 ∷ 4 ∷ [])
    ∷ (17 ∷ 17 ∷ 17 ∷ 17 ∷ 17 ∷ 17 ∷ 14 ∷ [])
    ∷ (17 ∷ 17 ∷ 17 ∷ 17 ∷ 17 ∷ 10 ∷ 4 ∷ [])
    ∷ (17 ∷ 17 ∷ 17 ∷ 21 ∷ 21 ∷ 21 ∷ 10 ∷ [])
    ∷ (17 ∷ 17 ∷ 10 ∷ 4 ∷ 10 ∷ 17 ∷ 17 ∷ [])
    ∷ (17 ∷ 17 ∷ 10 ∷ 4 ∷ 4 ∷ 4 ∷ 4 ∷ [])
    ∷ (31 ∷ 1 ∷ 2 ∷ 4 ∷ 8 ∷ 16 ∷ 31 ∷ [])
    ∷ []

unfoldable pub font_digits : List (List ℕ)
font_digits =
    (14 ∷ 17 ∷ 19 ∷ 21 ∷ 25 ∷ 17 ∷ 14 ∷ [])
    ∷ (4 ∷ 12 ∷ 4 ∷ 4 ∷ 4 ∷ 4 ∷ 14 ∷ [])
    ∷ (14 ∷ 17 ∷ 1 ∷ 2 ∷ 4 ∷ 8 ∷ 31 ∷ [])
    ∷ (30 ∷ 1 ∷ 1 ∷ 14 ∷ 1 ∷ 1 ∷ 30 ∷ [])
    ∷ (2 ∷ 6 ∷ 10 ∷ 18 ∷ 31 ∷ 2 ∷ 2 ∷ [])
    ∷ (31 ∷ 16 ∷ 16 ∷ 30 ∷ 1 ∷ 1 ∷ 30 ∷ [])
    ∷ (14 ∷ 16 ∷ 16 ∷ 30 ∷ 17 ∷ 17 ∷ 14 ∷ [])
    ∷ (31 ∷ 1 ∷ 2 ∷ 4 ∷ 8 ∷ 8 ∷ 8 ∷ [])
    ∷ (14 ∷ 17 ∷ 17 ∷ 14 ∷ 17 ∷ 17 ∷ 14 ∷ [])
    ∷ (14 ∷ 17 ∷ 17 ∷ 15 ∷ 1 ∷ 1 ∷ 14 ∷ [])
    ∷ []

-- A small letter is drawn as its capital; a character with no picture is blank.
unfoldable pub glyph_of : ℕ → List ℕ
glyph_of c =
    let big = if leb b'a' c && leb c b'z' then c - 32 else c in
    if leb b'A' big && leb big b'Z'
    then get_or font_letters (big - b'A') []
    else if leb b'0' big && leb big b'9'
    then get_or font_digits (big - b'0') []
    else if big == b'-'
    then 0 ∷ 0 ∷ 0 ∷ 31 ∷ 31 ∷ 0 ∷ 0 ∷ []
    else if big == b'_'
    then 0 ∷ 0 ∷ 0 ∷ 0 ∷ 0 ∷ 0 ∷ 31 ∷ []
    else if big == b'.'
    then 0 ∷ 0 ∷ 0 ∷ 0 ∷ 0 ∷ 0 ∷ 4 ∷ []
    else if big == b':'
    then 0 ∷ 0 ∷ 4 ∷ 0 ∷ 0 ∷ 4 ∷ 0 ∷ []
    else if big == b'/'
    then 0 ∷ 2 ∷ 2 ∷ 4 ∷ 8 ∷ 16 ∷ 0 ∷ []
    else 0 ∷ 0 ∷ 0 ∷ 0 ∷ 0 ∷ 0 ∷ 0 ∷ []

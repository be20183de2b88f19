-- ===== src/Node/Code/Texts.antt =====
-- The texts of the codes of node-core/src, as bytes.
use cll.Base.{◌≡◌, ◌≤◌, refl, true, arith, length}
use cll.Text.{is_utf8}
use cll.Node.Code.{Code, code_text}

pub code_text-is_utf8 : (status : Code) → is_utf8 (code_text status) ≡ true
unfolding code_text is_utf8
code_text-is_utf8 Code.invalid_probe = refl
code_text-is_utf8 _ = refl

pub length-code_text : (status : Code) → length (code_text status) ≤ 32
unfolding code_text
length-code_text Code.invalid_probe = omega arith
length-code_text _ = omega arith

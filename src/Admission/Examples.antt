-- ===== src/Admission/Examples.antt =====
-- The decisions at concrete inputs.
use vpma.Prelude.{ℕ, ◌≡◌, ◌↔◌, true, List, [], ◌∷◌}
use vpma.Admission.{ok, boot_admitted, admit_boot}
use vpma.Admission.Accepts.{BootAdmissible, admit_boot_iff}

abbrev lower : List ℕ
lower = 0x61 ∷ 0x62 ∷ []

abbrev upper : List ℕ
upper = 0x41 ∷ 0x62 ∷ []

admit_boot_iff_example :
    (admit_boot lower lower upper lower [] lower true true true ≡ ok boot_admitted)
    ↔ BootAdmissible lower lower upper lower [] lower true true true
admit_boot_iff_example = admit_boot_iff lower lower upper lower [] lower true true true

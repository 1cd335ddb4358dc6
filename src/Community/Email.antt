-- ===== src/Community/Email.antt =====
-- member-invitation.value-objects.ts: the email test of InvitationEmail,
-- /^[a-zA-Z0-9._%+-]+@[a-zA-Z0-9.-]+\.[a-zA-Z]{2,}$/, as a scan over the text's characters.
pub mod Shape
use Prim.Native.Char.{code}
use Prim.Native.String.{String}
use cellixjs.Base.{
  ℕ, suc, ◌≤◌, ◌+◌, Bool, true, false, ◌&&◌, ◌||◌, List, [], ◌∷◌, ◌++◌, ◌≡◌, refl, arith, leb,
  if◌then◌else◌, length,
}

abbrev pub codes : String → List ℕ
codes String.[] = []
codes (String.◌∷◌ c s) = code c ∷ codes s

abbrev pub equal : ℕ → ℕ → Bool
equal a b = leb a b && leb b a

unfoldable pub is_letter : ℕ → Bool
is_letter c = (leb b'a' c && leb c b'z') || (leb b'A' c && leb c b'Z')

unfoldable pub is_digit : ℕ → Bool
is_digit c = leb b'0' c && leb c b'9'

-- [a-zA-Z0-9.-]
unfoldable pub is_domain_code : ℕ → Bool
unfolding is_letter is_digit
is_domain_code c = is_letter c || is_digit c || equal c b'.' || equal c b'-'

-- [a-zA-Z0-9._%+-]
unfoldable pub is_local_code : ℕ → Bool
unfolding is_domain_code
is_local_code c = is_domain_code c || equal c b'_' || equal c b'%' || equal c b'+'

-- `tail_ok n s`: after `n` letters behind a dot, the rest of the text is letters, two at least.
unfoldable pub is_top_level : ℕ → List ℕ → Bool
is_top_level n [] = leb 2 n
is_top_level n (c ∷ s) = is_letter c && is_top_level (suc n) s

-- `[a-zA-Z0-9.-]+\.[a-zA-Z]{2,}$`, with `seen` telling that a character was read before.
unfoldable pub is_domain : Bool → List ℕ → Bool
unfolding is_domain_code is_top_level
is_domain seen [] = false
is_domain seen (c ∷ s) =
    (seen && equal c b'.' && is_top_level 0 s) || (is_domain_code c && is_domain true s)

-- The whole pattern, with `seen` telling that a character of the local part was read before.
unfoldable pub is_address : Bool → List ℕ → Bool
unfolding is_local_code is_domain
is_address seen [] = false
is_address seen (c ∷ s) =
    (seen && equal c b'@' && is_domain false s) || (is_local_code c && is_address true s)

-- emailRegex.test(value).
unfoldable pub matches_email : String → Bool
unfolding is_address
matches_email value = is_address false (codes value)

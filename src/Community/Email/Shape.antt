-- ===== src/Community/Email/Shape.antt =====
-- What the email test accepts: a local part, an at sign, a domain, a dot and a top level.
use Prim.Native.String.{String}
use cellixjs.Base.{
  ℕ, suc, ◌+◌, ◌≤◌, Bool, true, false, ◌&&◌, List, [], ◌∷◌, ◌++◌, ◌≡◌, ◌↔◌, refl, ap, arith, length,
  Bool-cases, inl, inr,
}
use cellixjs.Community.Email.{
  codes, equal, is_letter, is_domain_code, is_local_code, is_top_level, is_domain, is_address,
  matches_email,
}

abbrev pub all : (ℕ → Bool) → List ℕ → Bool
all p [] = true
all p (c ∷ s) = p c && all p s

abbrev pub some_or : Bool → List ℕ → Bool
some_or seen [] = seen
some_or seen (c ∷ s) = true

given : (s : List ℕ) → some_or true s ≡ true
given [] = refl
given (c ∷ s) = refl

-- The parts of a domain, with a character before them where `seen`.
pub record IsDomainOf (seen : Bool) (s : List ℕ) : Type 0 where
  pub name : List ℕ
  pub top : List ℕ
  pub parts : s ≡ name ++ (b'.' ∷ top)
  pub name_given : some_or seen name ≡ true
  pub name_codes : all is_domain_code name ≡ true
  pub top_letters : all is_letter top ≡ true
  pub top_length : 2 ≤ length top

pub record IsAddressOf (seen : Bool) (s : List ℕ) : Type 0 where
  pub local : List ℕ
  pub domain : List ℕ
  pub parts : s ≡ local ++ (b'@' ∷ domain)
  pub local_given : some_or seen local ≡ true
  pub local_codes : all is_local_code local ≡ true
  pub domain_ok : IsDomainOf false domain

top_level_sound :
    (n : ℕ) (s : List ℕ) → is_top_level n s ≡ true → (all is_letter s ≡ true) × (2 ≤ n + length s)
unfolding is_top_level
top_level_sound n [] h = ground arith
top_level_sound n (c ∷ s) h = ground (arith, top_level_sound (suc n) s)

top_level_complete :
    (n : ℕ) (s : List ℕ) → all is_letter s ≡ true → 2 ≤ n + length s → is_top_level n s ≡ true
unfolding is_top_level
top_level_complete n [] h k = ground arith
top_level_complete n (c ∷ s) h k = ground (arith, top_level_complete (suc n) s)

equal_sound : (a b : ℕ) → equal a b ≡ true → a ≡ b
equal_sound a b h = ground arith

domain-here :
    (seen : Bool) (c : ℕ) (s : List ℕ)
    → seen ≡ true
    → c ≡ b'.'
    → (all is_letter s ≡ true) × (2 ≤ 0 + length s)
    → IsDomainOf seen (c ∷ s)
domain-here seen c s here dot t = record {
  name = [];
  top = s;
  parts = ap (λ x. x ∷ s) dot;
  name_given = here;
  name_codes = refl;
  top_letters = t.0;
  top_length = ground (arith, t.1);
}

domain-later :
    (seen : Bool) (c : ℕ) (s : List ℕ)
    → is_domain_code c ≡ true
    → IsDomainOf true s
    → IsDomainOf seen (c ∷ s)
domain-later seen c s code d = record {
  name = c ∷ d.name;
  top = d.top;
  parts = ap (λ x. c ∷ x) d.parts;
  name_given = refl;
  name_codes = rw code d.name_codes;
  top_letters = d.top_letters;
  top_length = d.top_length;
}

domain_sound : (seen : Bool) (s : List ℕ) → is_domain seen s ≡ true → IsDomainOf seen s
unfolding is_domain
domain_sound seen [] h = ground arith
domain_sound seen (c ∷ s) h = elim (Bool-cases (seen && equal c b'.' && is_top_level 0 s)) [
  | inl e ↦
      domain-here seen c s (ground arith) (equal_sound c b'.' (ground arith))
        (top_level_sound 0 s (ground arith))
  | inr e ↦ domain-later seen c s (ground arith) (domain_sound true s (ground arith))
]

domain_complete :
    (seen : Bool) (name top : List ℕ)
    → some_or seen name ≡ true
    → all is_domain_code name ≡ true
    → all is_letter top ≡ true
    → 2 ≤ length top
    → is_domain seen (name ++ (b'.' ∷ top)) ≡ true
unfolding is_domain
domain_complete seen [] top g c l n = ground (arith, top_level_complete 0 top)
domain_complete seen (x ∷ name) top g c l n =
    ground (arith, domain_complete true name top (given name))

address-here :
    (seen : Bool) (c : ℕ) (s : List ℕ)
    → seen ≡ true
    → c ≡ b'@'
    → IsDomainOf false s
    → IsAddressOf seen (c ∷ s)
address-here seen c s here at d = record {
  local = [];
  domain = s;
  parts = ap (λ x. x ∷ s) at;
  local_given = here;
  local_codes = refl;
  domain_ok = d;
}

address-later :
    (seen : Bool) (c : ℕ) (s : List ℕ)
    → is_local_code c ≡ true
    → IsAddressOf true s
    → IsAddressOf seen (c ∷ s)
address-later seen c s code d = record {
  local = c ∷ d.local;
  domain = d.domain;
  parts = ap (λ x. c ∷ x) d.parts;
  local_given = refl;
  local_codes = rw code d.local_codes;
  domain_ok = d.domain_ok;
}

address_sound : (seen : Bool) (s : List ℕ) → is_address seen s ≡ true → IsAddressOf seen s
unfolding is_address
address_sound seen [] h = ground arith
address_sound seen (c ∷ s) h = elim (Bool-cases (seen && equal c b'@' && is_domain false s)) [
  | inl e ↦
      address-here seen c s (ground arith) (equal_sound c b'@' (ground arith))
        (domain_sound false s (ground arith))
  | inr e ↦ address-later seen c s (ground arith) (address_sound true s (ground arith))
]

address_complete :
    (seen : Bool) (local domain : List ℕ)
    → some_or seen local ≡ true
    → all is_local_code local ≡ true
    → is_domain false domain ≡ true
    → is_address seen (local ++ (b'@' ∷ domain)) ≡ true
unfolding is_address
address_complete seen [] domain g c d = ground arith
address_complete seen (x ∷ local) domain g c d =
    ground (arith, address_complete true local domain (given local))

-- The scan accepts exactly the texts that are a local part of one character at least, an at sign,
-- a domain name of one character at least, a dot, and two letters or more, each part made of the
-- characters that the pattern lists for it.
pub matches_email_iff :
    (value : String) → matches_email value ≡ true ↔ IsAddressOf false (codes value)
unfolding matches_email
matches_email_iff value = (
  address_sound false (codes value),
  λ a. rw a.parts (
      address_complete false a.local a.domain a.local_given a.local_codes (
        rw a.domain_ok.parts (
          domain_complete false a.domain_ok.name a.domain_ok.top a.domain_ok.name_given
            a.domain_ok.name_codes a.domain_ok.top_letters a.domain_ok.top_length))),
)

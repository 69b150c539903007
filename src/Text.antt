-- ===== src/Text.antt =====
-- Texts, as several nodes read them from their parameters: white space is trimmed, as by std::isspace.
use Prim.Native.Char.{Char, code}
use ros2_dispatcher.Prelude.{
  String, Bool, true, false, ◌&&◌, ◌||◌, ◌≡◌, refl, arith, nat_eq, leb, if◌then◌else◌,
}

-- std::isspace, in the "C" locale.
abbrev pub is_space : Char → Bool
is_space c = nat_eq (code c) 32 || (leb 9 (code c) && leb (code c) 13)

-- s.erase(s.begin(), find_if(s.begin(), s.end(), not space))
unfoldable pub trim_left : String → String
trim_left String.[] = ""
trim_left (String.◌∷◌ c s) = let rest = trim_left s in if is_space c then rest else String.◌∷◌ c s

abbrev is_nil : String → Bool
is_nil String.[] = true
is_nil (String.◌∷◌ c s) = false

-- s.erase(find_if(s.rbegin(), s.rend(), not space).base(), s.end())
unfoldable pub trim_right : String → String
trim_right String.[] = ""
trim_right (String.◌∷◌ c s) =
    let rest = trim_right s in if is_space c && is_nil rest then "" else String.◌∷◌ c rest

unfoldable pub trim : String → String
unfolding trim_left trim_right
trim s = trim_right (trim_left s)

-- A text that begins and ends with no space.
abbrev pub starts_space : String → Bool
starts_space String.[] = false
starts_space (String.◌∷◌ c s) = is_space c

trim_left-starts : (s : String) → starts_space (trim_left s) ≡ false
unfolding trim_left
trim_left-starts String.[] = refl
trim_left-starts (String.◌∷◌ c s) = ground (arith, trim_left-starts s)

trim_right-starts : (s : String) → starts_space s ≡ false → starts_space (trim_right s) ≡ false
unfolding trim_right
trim_right-starts String.[] h = refl
trim_right-starts (String.◌∷◌ c s) h = ground arith

trim_left_fix : (s : String) → starts_space s ≡ false → trim_left s ≡ s
unfolding trim_left
trim_left_fix String.[] h = refl
trim_left_fix (String.◌∷◌ c s) h = ground arith

trim_right_idem : (s : String) → trim_right (trim_right s) ≡ trim_right s
unfolding trim_right
trim_right_idem String.[] = refl
trim_right_idem (String.◌∷◌ c s) = ground (arith, trim_right_idem s)

pub trim_idem : (s : String) → trim (trim s) ≡ trim s
unfolding trim
trim_idem s =
    rw
      (trim_left_fix (trim_right (trim_left s))
        (trim_right-starts (trim_left s) (trim_left-starts s)))
      (trim_right_idem (trim_left s))

-- text.rfind(prefix, 0) == 0
unfoldable pub has_prefix : String → String → Bool
has_prefix String.[] s = true
has_prefix (String.◌∷◌ c p) String.[] = false
has_prefix (String.◌∷◌ c p) (String.◌∷◌ d s) = nat_eq (code c) (code d) && has_prefix p s

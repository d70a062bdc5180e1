-- ===== src/Ping.antt =====
-- The types of podping/dbif/src/lib.rs: reasons and media with the texts that `strum` derives.
use Prim.Native.Char.{code}
use podping_alpha.Prelude.{
  ℕ, ◌+◌, String, ◌≡◌, refl, Bool, true, false, ◌&&◌, Option, none, some, List, [], ◌∷◌, map, leb,
  eqb, if◌then◌else◌,
}

pub data Reason : Type 0 where
  update live live_end : Reason

pub data Medium : Type 0 where
  podcast podcast_l music music_l video video_l film film_l audiobook audiobook_l : Medium
  newsletter newsletter_l blog blog_l publisher publisher_l course course_l : Medium

pub record Ping : Type 0 where
  pub url : String
  pub time : ℕ
  pub reason : Reason
  pub medium : Medium

-- `to_string` of the derived `Display`: the variant's name.
unfoldable pub reason_name : Reason → String
reason_name update = "Update"
reason_name live = "Live"
reason_name live_end = "LiveEnd"

unfoldable pub medium_name : Medium → String
medium_name podcast = "Podcast"
medium_name podcast_l = "PodcastL"
medium_name music = "Music"
medium_name music_l = "MusicL"
medium_name video = "Video"
medium_name video_l = "VideoL"
medium_name film = "Film"
medium_name film_l = "FilmL"
medium_name audiobook = "Audiobook"
medium_name audiobook_l = "AudiobookL"
medium_name newsletter = "Newsletter"
medium_name newsletter_l = "NewsletterL"
medium_name blog = "Blog"
medium_name blog_l = "BlogL"
medium_name publisher = "Publisher"
medium_name publisher_l = "PublisherL"
medium_name course = "Course"
medium_name course_l = "CourseL"

abbrev pub codes : String → List ℕ
codes String.[] = []
codes (String.◌∷◌ c s) = code c ∷ codes s

-- `to_ascii_lowercase` on a code point.
unfoldable pub to_lower : ℕ → ℕ
to_lower c = if leb b'A' c && leb c b'Z' then c + 32 else c

unfoldable pub same_codes : List ℕ → List ℕ → Bool
same_codes [] [] = true
same_codes (a ∷ as') (b ∷ bs) = eqb a b && same_codes as' bs
same_codes _ _ = false

-- `eq_ignore_ascii_case`
unfoldable pub eq_ignore_ascii_case : String → String → Bool
unfolding to_lower same_codes
eq_ignore_ascii_case s t = same_codes (map to_lower (codes s)) (map to_lower (codes t))

-- The first of the listed values whose name is `s`, in the order of the variants.
unfoldable pub parse_variant : {A : Type 0} → (A → String) → String → List A → Option A
unfolding eq_ignore_ascii_case
parse_variant name s [] = none
parse_variant name s (a ∷ rest) =
    if eq_ignore_ascii_case s (name a) then some a else parse_variant name s rest

abbrev pub reasons : List Reason
reasons = update ∷ live ∷ live_end ∷ []

abbrev pub media : List Medium
media =
    podcast ∷ podcast_l ∷ music ∷ music_l ∷ video ∷ video_l ∷ film ∷ film_l ∷ audiobook
    ∷ audiobook_l ∷ newsletter ∷ newsletter_l ∷ blog ∷ blog_l ∷ publisher ∷ publisher_l ∷ course
    ∷ course_l ∷ []

-- `Reason::from_str`, derived with `ascii_case_insensitive`
unfoldable pub reason_from_str : String → Option Reason
unfolding parse_variant reason_name
reason_from_str s = parse_variant reason_name s reasons

-- `Medium::from_str`
unfoldable pub medium_from_str : String → Option Medium
unfolding parse_variant medium_name
medium_from_str s = parse_variant medium_name s media

pub reason_from_str-reason_name : (r : Reason) → reason_from_str (reason_name r) ≡ some r
unfolding reason_from_str
reason_from_str-reason_name update = refl
reason_from_str-reason_name live = refl
reason_from_str-reason_name live_end = refl

pub medium_from_str-medium_name : (m : Medium) → medium_from_str (medium_name m) ≡ some m
unfolding medium_from_str
medium_from_str-medium_name podcast = refl
medium_from_str-medium_name _ = refl

reason_from_str_ignores_case : reason_from_str "LIVEEND" ≡ some live_end
unfolding reason_from_str
reason_from_str_ignores_case = refl

-- ===== src/Util/Tokenize/Tests.antt =====
-- util/tokenize.ts: utterances and names.
use genie_cloud.Base.{◌≡◌, refl, [], ◌∷◌, none, some, codes, to_lower}
use genie_cloud.Util.Tokenize.{
  literal, dollar, placeholder, split_params, split_from, match_param, match_braced, match_option,
  match_close, clean, split_camel, tokenize, split_words,
}

chunks :
    split_params (codes "Pay $$5 to ${who:const} on $date, ${")
    ≡ literal (codes "Pay ")
      ∷ dollar
      ∷ literal (codes "5 to ")
      ∷ placeholder (codes "who") (some (codes "const"))
      ∷ literal (codes " on ")
      ∷ placeholder (codes "date") none
      ∷ literal (codes ", ${")
      ∷ []
unfolding split_params split_from match_param match_braced match_option match_close
chunks = refl

cleaned : clean (codes "v_googleDrive_file") ≡ codes "google drive file"
unfolding clean split_camel to_lower
cleaned = refl

tokens :
    tokenize (codes "Hello, World  again!")
    ≡ codes "hello" ∷ codes "," ∷ codes "world" ∷ codes "again" ∷ codes "!" ∷ []
unfolding tokenize split_words to_lower
tokens = refl

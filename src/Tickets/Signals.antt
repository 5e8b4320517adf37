-- ===== src/Tickets/Signals.antt =====
-- internal/dispatcher/sizer.go: the patterns that the sizer counts hits of.
use forge_wingman.Prelude.{List, [], ◌∷◌}
use forge_wingman.Text.{Text, codes}
use forge_wingman.Text.Regex.{
  Regex, word_edge, text_start, line_start, text_end, one_of, many, is_digit, is_word, all_of,
  any_of, maybe, some_of, folded, among, none_of,
}

-- signal
pub record Signal : Type 0 where
  pub name : Text
  pub re : Regex

abbrev blanks : Regex
blanks = many (among (codes " \t"))

abbrev plural : Text → Regex
plural s = all_of (folded s ∷ maybe (folded (codes "s")) ∷ [])

abbrev opening : Text → Regex
opening s = all_of (folded s ∷ many (one_of is_word) ∷ [])

abbrev a_word_of : List Regex → Regex
a_word_of rs = all_of (word_edge ∷ any_of rs ∷ word_edge ∷ [])

unfoldable pub single_layer_lane : Regex
single_layer_lane = all_of (
    text_start
    ∷ many (among (codes " \t\n\r\u{c}"))
    ∷ folded (codes "[")
    ∷ any_of (
        folded (codes "BE")
        ∷ folded (codes "FE")
        ∷ folded (codes "INFRA")
        ∷ folded (codes "OPS")
        ∷ [])
    ∷ folded (codes "]")
    ∷ [])

unfoldable pub ac_heading : Regex
ac_heading =
    let label = folded (codes "acceptance criteria") in
    any_of (
      all_of (text_start ∷ blanks ∷ some_of (folded (codes "#")) ∷ blanks ∷ label ∷ word_edge ∷ [])
      ∷ all_of (text_start ∷ blanks ∷ folded (codes "**") ∷ blanks ∷ label ∷ word_edge ∷ [])
      ∷ all_of (
          text_start
          ∷ blanks
          ∷ label
          ∷ blanks
          ∷ maybe
              (all_of (folded (codes "(") ∷ many (none_of (codes ")\n")) ∷ folded (codes ")") ∷ []))
          ∷ blanks
          ∷ maybe (folded (codes ":"))
          ∷ blanks
          ∷ text_end
          ∷ [])
      ∷ [])

unfoldable pub md_heading : Regex
md_heading = all_of (text_start ∷ blanks ∷ some_of (folded (codes "#")) ∷ among (codes " \t") ∷ [])

unfoldable pub bold_line : Regex
bold_line = all_of (
    text_start
    ∷ blanks
    ∷ folded (codes "**")
    ∷ some_of (none_of (codes "*\n"))
    ∷ folded (codes "**")
    ∷ [])

unfoldable pub amendment : Regex
amendment = all_of (
    text_start
    ∷ blanks
    ∷ folded (codes "**")
    ∷ blanks
    ∷ any_of (
        folded (codes "updated")
        ∷ folded (codes "added")
        ∷ folded (codes "superseded")
        ∷ folded (codes "removed")
        ∷ [])
    ∷ word_edge
    ∷ [])

unfoldable pub ac_item : Regex
ac_item =
    let space = maybe (among (codes " ")) in
    all_of (
      line_start
      ∷ space
      ∷ space
      ∷ space
      ∷ any_of
          (all_of (some_of (one_of is_digit) ∷ among (codes ".)") ∷ []) ∷ among (codes "-*+") ∷ [])
      ∷ among (codes " \t")
      ∷ [])

unfoldable pub risk_signals : List Signal
risk_signals =
    (record {
      name = codes "schema";
      re = a_word_of (
          folded (codes "schema")
          ∷ plural (codes "migration")
          ∷ folded (codes "firestore")
          ∷ folded (codes "database")
          ∷ folded (codes "storage")
          ∷ all_of (folded (codes "index") ∷ maybe (folded (codes "es")) ∷ [])
          ∷ []);
    })
    ∷ (record {
      name = codes "api";
      re = any_of (
          a_word_of (
            plural (codes "api")
            ∷ plural (codes "endpoint")
            ∷ folded (codes "graphql")
            ∷ plural (codes "webhook")
            ∷ [])
          ∷ all_of (
              word_edge
              ∷ any_of (
                  folded (codes "get")
                  ∷ folded (codes "post")
                  ∷ folded (codes "put")
                  ∷ folded (codes "patch")
                  ∷ folded (codes "delete")
                  ∷ [])
              ∷ folded (codes " /")
              ∷ [])
          ∷ []);
    })
    ∷ (record {
      name = codes "auth";
      re = a_word_of (
          folded (codes "auth")
          ∷ folded (codes "authn")
          ∷ folded (codes "authz")
          ∷ opening (codes "authenticat")
          ∷ all_of (
              folded (codes "authori")
              ∷ any_of (folded (codes "s") ∷ folded (codes "z") ∷ [])
              ∷ many (one_of is_word)
              ∷ [])
          ∷ folded (codes "iap")
          ∷ folded (codes "oauth")
          ∷ plural (codes "credential")
          ∷ plural (codes "secret")
          ∷ plural (codes "permission")
          ∷ folded (codes "iam")
          ∷ plural (codes "signature")
          ∷ folded (codes "sign-in")
          ∷ opening (codes "isolat")
          ∷ folded (codes "egress")
          ∷ opening (codes "sandbox")
          ∷ []);
    })
    ∷ (record {
      name = codes "money";
      re = any_of (
          a_word_of (
            folded (codes "spend")
            ∷ plural (codes "cost")
            ∷ plural (codes "price")
            ∷ folded (codes "pricing")
            ∷ plural (codes "budget")
            ∷ folded (codes "billing")
            ∷ folded (codes "ledger")
            ∷ folded (codes "usd")
            ∷ all_of (folded (codes "charge") ∷ maybe (folded (codes "d")) ∷ [])
            ∷ [])
          ∷ all_of (folded (codes "$") ∷ one_of is_digit ∷ [])
          ∷ []);
    })
    ∷ []

unfoldable pub module_signals : List Signal
module_signals =
    (record { name = codes "dispatcher"; re = a_word_of (folded (codes "dispatcher") ∷ []) })
    ∷ (record { name = codes "runner"; re = a_word_of (folded (codes "runner") ∷ []) })
    ∷ (record { name = codes "surface"; re = a_word_of (folded (codes "surface") ∷ []) })
    ∷ (record { name = codes "webhook"; re = a_word_of (folded (codes "webhook") ∷ []) })
    ∷ (record { name = codes "store"; re = a_word_of (folded (codes "store") ∷ []) })
    ∷ (record {
      name = codes "workflow";
      re = any_of (a_word_of (plural (codes "workflow") ∷ []) ∷ folded (codes ".github/") ∷ []);
    })
    ∷ (record {
      name = codes "infra";
      re =
          a_word_of
            (folded (codes "opentofu") ∷ folded (codes "terraform") ∷ folded (codes "infra") ∷ []);
    })
    ∷ (record {
      name = codes "web";
      re = a_word_of (plural (codes "page") ∷ folded (codes "inbox") ∷ folded (codes "web") ∷ []);
    })
    ∷ (record { name = codes "container"; re = a_word_of (plural (codes "container") ∷ []) })
    ∷ []

-- ===== src/Workflow/Markdown/Tests.antt =====
-- A workflow of two steps in Markdown.
use claw.Base.{◌≡◌, refl, none, List, [], ◌∷◌, ◌++◌, map, string_eq}
use claw.Base.Bytes.{codes, text_of}
use claw.TestJson.{test_json}
use claw.Workflow.Markdown.{
  RawStep, parse_step_block, parse_steps, parse_markdown, parse_frontmatter, create_from_markdown,
  blank_step, trim,
}
use claw.Workflow.Markdown.Sections.{render, parse_steps-render}

abbrev two_steps : List RawStep
two_steps =
    record { number = codes "1"; title = codes "Ask"; body = 0x0a ∷ codes "- type: tool" }
    ∷ record { number = codes "2"; title = codes "Tell"; body = 0x0a ∷ [] }
    ∷ []

parse_steps-render_example :
    parse_steps test_json (codes "Hi" ++ render two_steps)
    ≡ map
        (λ (s : RawStep). parse_step_block test_json (codes "step_" ++ s.number) s.title s.body)
        two_steps
parse_steps-render_example =
    parse_steps-render test_json (codes "Hi") two_steps (refl, (refl, tt))
      (
        record {
          number = (refl, tt);
          title = (refl, refl, (refl, (refl, (refl, tt))));
          body = (
            refl,
            (
              refl,
              (
                refl,
                (
                  refl,
                  (
                    refl,
                    (refl, (refl, (refl, (refl, (refl, (refl, (refl, (refl, (refl, tt))))))))),
                  ),
                ),
              ),
            ),
          );
        },
        (
          record {
            number = (refl, tt);
            title = (refl, refl, (refl, (refl, (refl, (refl, tt)))));
            body = (refl, (refl, tt));
          },
          tt,
        ),
      )

-- A header with no title takes the next line as its title.
swallowed :
    map
      (λ (s : RawStep). text_of s.title)
      (claw.Workflow.Markdown.split_steps 0 (codes "## Step 1:" ++ (0x0a ∷ codes "- type: tool"))).1
    ≡ "- type: tool" ∷ []
swallowed = refl

-- A front matter with no member makes ParseMarkdown throw.
no_member : parse_markdown test_json "--- ---" ≡ none
unfolding parse_markdown parse_frontmatter
no_member = refl

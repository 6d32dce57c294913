-- ===== src/Usb/Descriptor.antt =====
-- The report descriptor of main/src/usb_bridge.c, an item for each macro of the source, and what the HID
-- specification makes of such a list: how many bits each report has.
pub mod Sizes
use zmk_usb_bridge.Prelude.{
  ℕ, zero, suc, ◌+◌, ◌*◌, Bool, true, false, ◌&&◌, List, ◌++◌, [], ◌∷◌, Option, none, some, ◌==◌,
  if◌then◌else◌,
}
use zmk_usb_bridge.Usb.{keyboard_report_id, consumer_report_id, mouse_report_id}

pub data Item : Type 0 where
  usage_page usage usage_min usage_max : ℕ → Item
  logical_min logical_max physical_min physical_max : ℕ → Item
  report_id report_size report_count : ℕ → Item
  input output feature : (flags : ℕ) → Item
  collection : ℕ → Item
  end_collection push pop : Item

-- The 16-bit items are written low byte first.
abbrev word : ℕ → ℕ → ℕ
word low high = low + 256 * high

abbrev keyboard_items : List Item
keyboard_items =
    Item.usage_page 1
    ∷ Item.usage 6
    ∷ Item.collection 1
    ∷ Item.report_id keyboard_report_id
    ∷ Item.usage_page 7
    ∷ Item.usage_min 224
    ∷ Item.usage_max 231
    ∷ Item.logical_min 0
    ∷ Item.logical_max 1
    ∷ Item.report_size 1
    ∷ Item.report_count 8
    ∷ Item.input 2
    ∷ Item.report_size 8
    ∷ Item.report_count 1
    ∷ Item.input 3
    ∷ Item.report_size 1
    ∷ Item.report_count 5
    ∷ Item.usage_page 8
    ∷ Item.usage_min 1
    ∷ Item.usage_max 5
    ∷ Item.output 2
    ∷ Item.report_size 3
    ∷ Item.report_count 1
    ∷ Item.output 3
    ∷ Item.report_size 8
    ∷ Item.report_count 6
    ∷ Item.logical_min 0
    ∷ Item.logical_max (word 255 0)
    ∷ Item.usage_page 7
    ∷ Item.usage_min 0
    ∷ Item.usage_max 255
    ∷ Item.input 0
    ∷ Item.end_collection
    ∷ []

abbrev consumer_items : List Item
consumer_items =
    Item.usage_page 12
    ∷ Item.usage 1
    ∷ Item.collection 1
    ∷ Item.report_id consumer_report_id
    ∷ Item.logical_min (word 0 0)
    ∷ Item.logical_max (word 255 3)
    ∷ Item.usage_min (word 0 0)
    ∷ Item.usage_max (word 255 3)
    ∷ Item.report_size 16
    ∷ Item.report_count 1
    ∷ Item.input 0
    ∷ Item.end_collection
    ∷ []

-- A scroll axis: the wheel, and the pan.
abbrev axis : List Item → List Item
axis rest =
    Item.logical_min (word 0 128)
    ∷ Item.logical_max (word 255 127)
    ∷ Item.physical_min 0
    ∷ Item.physical_max 0
    ∷ Item.report_size 16
    ∷ Item.report_count 1
    ∷ Item.input 6
    ∷ Item.end_collection
    ∷ rest

abbrev mouse_items : List Item
mouse_items =
    Item.usage_page 1
    ∷ Item.usage 2
    ∷ Item.collection 1
    ∷ Item.report_id mouse_report_id
    ∷ Item.usage 1
    ∷ Item.collection 0
    ∷ Item.usage_page 9
    ∷ Item.usage_min 1
    ∷ Item.usage_max 5
    ∷ Item.logical_min 0
    ∷ Item.logical_max 1
    ∷ Item.report_size 1
    ∷ Item.report_count 5
    ∷ Item.input 2
    ∷ Item.report_size 3
    ∷ Item.report_count 1
    ∷ Item.input 3
    ∷ Item.usage_page 1
    ∷ Item.usage 48
    ∷ Item.usage 49
    ∷ Item.logical_min (word 0 128)
    ∷ Item.logical_max (word 255 127)
    ∷ Item.report_size 16
    ∷ Item.report_count 2
    ∷ Item.input 6
    ∷ Item.collection 2
    ∷ Item.usage 72
    ∷ Item.logical_min 0
    ∷ Item.logical_max 15
    ∷ Item.physical_min 1
    ∷ Item.physical_max 16
    ∷ Item.report_size 4
    ∷ Item.report_count 1
    ∷ Item.push
    ∷ Item.feature 2
    ∷ Item.usage 56
    ∷ axis (
        Item.collection 2
        ∷ Item.usage 72
        ∷ Item.pop
        ∷ Item.feature 2
        ∷ Item.usage_page 12
        ∷ Item.usage (word 56 2)
        ∷ axis (Item.end_collection ∷ Item.end_collection ∷ []))

unfoldable pub hid_report_desc : List Item
hid_report_desc = keyboard_items ++ (consumer_items ++ mouse_items)

-- The global items that the size of a report depends on.
pub record Globals : Type 0 where
  pub id : ℕ
  pub size : ℕ
  pub count : ℕ

pub data Kind : Type 0 where
  of_input of_output of_feature : Kind

-- Whether a main item adds to reports of a kind.
abbrev adds : Kind → Item → Bool
adds Kind.of_input (Item.input flags) = true
adds Kind.of_output (Item.output flags) = true
adds Kind.of_feature (Item.feature flags) = true
adds _ _ = false

abbrev after_item : Item → Globals × List Globals → Globals × List Globals
after_item (Item.report_id n) (g, saved) = (record g { id = n }, saved)
after_item (Item.report_size n) (g, saved) = (record g { size = n }, saved)
after_item (Item.report_count n) (g, saved) = (record g { count = n }, saved)
after_item Item.push (g, saved) = (g, g ∷ saved)
after_item Item.pop (g, top ∷ saved) = (top, saved)
after_item _ state = state

-- The bits of the report of a kind with an identifier, without the identifier's own byte.
unfoldable pub report_bits : Kind → ℕ → List Item → Globals × List Globals → ℕ
report_bits kind id [] state = 0
report_bits kind id (item ∷ items) state =
    (if adds kind item && state.0.id == id then state.0.size * state.0.count else 0)
    + report_bits kind id items (after_item item state)

abbrev pub no_globals : Globals × List Globals
no_globals = (record { id = 0; size = 0; count = 0 }, [])

unfoldable pub declared_bits : Kind → ℕ → ℕ
unfolding report_bits hid_report_desc
declared_bits kind id = report_bits kind id hid_report_desc no_globals

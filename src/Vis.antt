-- ===== src/Vis.antt =====
-- src/visualization/blockchain_vis.js: the page that draws the block trees.
-- `Vis/Payload.antt` has the JSON that the page fetches, `Vis/Render.antt` the handler `handle_data`
-- as the sequence of calls that it makes of the graph widget, `Vis/Style.antt` the style sheet.
pub mod Payload
pub mod Render
pub mod Nodes
pub mod Style
pub mod Phases
pub mod Load
mod Tests
